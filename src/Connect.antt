-- ===== src/Connect.antt =====
-- impl/async_connect.h: how a connection is made.
pub mod OidMap
pub mod Polling
pub mod Timed
mod Examples
use ozo_pg.Base.{ℕ, List, [], ◌∷◌, ◌++◌, Option, none, some, Bool, true, false, if◌then◌else◌}
use ozo_pg.Error.{OzoError, ErrorCode, ozo_error}
use ozo_pg.Connection.{Libpq, Connection, finish, assign, connection_status_bad}
use ozo_pg.Query.{literal}

-- `PostgresPollingStatusType`
pub data PollingStatus : Type 0 where
  pgres_polling_failed pgres_polling_reading pgres_polling_writing pgres_polling_ok
        pgres_polling_active :
      PollingStatus

pub data Wait : Type 0 where
  wait_write wait_read : Wait

-- The operation: its connection, the wait that is pending, and the calls of its handler.
pub record ConnectOp : Type 0 where
  pub connection : Connection
  pub waiting : Option Wait
  pub calls : List (Option ErrorCode)

unfoldable pub done : Option ErrorCode → ConnectOp → ConnectOp
done ec s = record s { waiting = none; calls = s.calls ++ (ec ∷ []) }

-- `perform` is left by a return, and the handle, if it is still there, is finished.
unfoldable pub drop_handle : ℕ → ConnectOp → ConnectOp
drop_handle handle s =
    let c = s.connection in
    record s { connection = record c { finished = finish (some handle) c.finished } }

unfoldable pub on_assigned : ℕ → Connection × Option ErrorCode → ConnectOp → ConnectOp
unfolding done drop_handle
on_assigned handle (c, some ec) s =
    drop_handle handle (done (some ec) (record s { connection = c }))
on_assigned handle (c, none) s = record s { connection = c; waiting = some wait_write }

module _ (pq : Libpq) where
  unfoldable pub on_status : ℕ → Bool → ConnectOp → ConnectOp
  unfolding done drop_handle on_assigned assign
  on_status handle true s =
      drop_handle handle (done (some (ozo_error OzoError.pq_connection_status_bad)) s)
  on_status handle false s = on_assigned handle (assign pq handle s.connection) s

  -- `perform`, on what `PQconnectStart` gives.
  unfoldable pub perform : Option ℕ → ConnectOp → ConnectOp
  unfolding done on_status connection_status_bad
  perform none s = done (some (ozo_error OzoError.pq_connection_start_failed)) s
  perform (some handle) s = on_status handle (connection_status_bad pq (some handle)) s

-- `if (std::empty(get_error_context(connection())))`
unfoldable pub polling_context : List ℕ → List ℕ
polling_context [] = literal "error while connection polling"
polling_context (c ∷ cs) = c ∷ cs

unfoldable pub on_poll : PollingStatus → ConnectOp → ConnectOp
unfolding done
on_poll pgres_polling_ok s = done none s
on_poll pgres_polling_writing s = record s { waiting = some wait_write }
on_poll pgres_polling_reading s = record s { waiting = some wait_read }
on_poll pgres_polling_failed s = done (some (ozo_error OzoError.pq_connect_poll_failed)) s
on_poll pgres_polling_active s = done (some (ozo_error OzoError.pq_connect_poll_failed)) s

-- `operator ()`: a wait has ended, and `PQconnectPoll` gives a status.
unfoldable pub on_wait : Option ErrorCode → PollingStatus → ConnectOp → ConnectOp
unfolding done polling_context on_poll
on_wait (some ec) poll s =
    let c = s.connection in
    done (some ec)
      (record s { connection = record c { error_context = polling_context c.error_context } })
on_wait none poll s = on_poll poll s

-- The ends of the waits, each with what is polled after it; no wait is pending once the handler is called.
abbrev pub WaitEnd : Type 0
WaitEnd = Option ErrorCode × PollingStatus

unfoldable pub wait_ends_at : Option Wait → WaitEnd → ConnectOp → ConnectOp
unfolding on_wait
wait_ends_at none e s = s
wait_ends_at (some w) (ec, poll) s = on_wait ec poll s

unfoldable pub run_waits : List WaitEnd → ConnectOp → ConnectOp
unfolding wait_ends_at
run_waits [] s = s
run_waits (e ∷ es) s = run_waits es (wait_ends_at s.waiting e s)

unfoldable pub connect : Libpq → Option ℕ → Connection → List WaitEnd → ConnectOp
unfolding perform run_waits
connect pq handle c es =
    run_waits es (perform pq handle (record { connection = c; waiting = none; calls = [] }))
