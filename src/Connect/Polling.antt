-- ===== src/Connect/Polling.antt =====
-- impl/async_connect.h: the calls of the handler of `async_connect_op`.
use ozo_pg.Base.{◌≡◌, refl, ap, ◌∙◌, List, [], ◌∷◌, ◌++◌, Option, none, some, Bool, true, false, ℕ}
use ozo_pg.Error.{OzoError, ErrorCode, ozo_error}
use ozo_pg.Connection.{Libpq, Connection, assign, assign_socket, connection_status_bad}
use ozo_pg.Connect.{
  PollingStatus, pgres_polling_failed, pgres_polling_reading, pgres_polling_writing,
  pgres_polling_ok, pgres_polling_active, Wait, ConnectOp, done, drop_handle, on_assigned,
  on_status, perform, on_poll, on_wait, WaitEnd, wait_ends_at, run_waits, connect, polling_context,
}

-- What the end of a wait says to the handler; `none` where the connection is waited for further.
abbrev pub answer : WaitEnd → Option (Option ErrorCode)
answer (some ec, poll) = some (some ec)
answer (none, pgres_polling_ok) = some none
answer (none, pgres_polling_failed) = some (some (ozo_error OzoError.pq_connect_poll_failed))
answer (none, pgres_polling_active) = some (some (ozo_error OzoError.pq_connect_poll_failed))
answer (none, pgres_polling_reading) = none
answer (none, pgres_polling_writing) = none

-- The first answer among the ends of the waits.
abbrev pub first_answer : List WaitEnd → Option (Option ErrorCode)
first_answer [] = none
first_answer (e ∷ es) = elim (answer e) [ none ↦ first_answer es | some a ↦ some a ]

abbrev pub listed : Option (Option ErrorCode) → List (Option ErrorCode)
listed none = []
listed (some ec) = ec ∷ []

finished-ends : (es : List WaitEnd) (s : ConnectOp) → s.waiting ≡ none → run_waits es s ≡ s
unfolding run_waits wait_ends_at
finished-ends [] s h = refl
finished-ends (e ∷ es) s h = ap (λ w. run_waits es (wait_ends_at w e s)) h ∙ finished-ends es s h

wait-end :
    (ec : Option ErrorCode) (poll : PollingStatus) (es : List WaitEnd) (s : ConnectOp) (w : Wait)
    → s.waiting ≡ some w
    → (run_waits ((ec, poll) ∷ es) s).calls ≡ (run_waits es (on_wait ec poll s)).calls
unfolding run_waits wait_ends_at
wait-end ec poll es s w h = ap (λ x. (run_waits es (wait_ends_at x (ec, poll) s)).calls) h

done-calls :
    (ec : Option ErrorCode) (es : List WaitEnd) (s : ConnectOp)
    → s.calls ≡ []
    → (run_waits es (done ec s)).calls ≡ ec ∷ []
unfolding done
done-calls ec es s h =
    ap (λ (x : ConnectOp). x.calls) (finished-ends es (done ec s) refl) ∙ ap (λ x. x ++ (ec ∷ [])) h

run_waits-calls :
    (es : List WaitEnd) (s : ConnectOp) (w : Wait)
    → s.waiting ≡ some w
    → s.calls ≡ []
    → (run_waits es s).calls ≡ listed (first_answer es)
unfolding run_waits on_wait on_poll
run_waits-calls [] s w e c = c
run_waits-calls ((some ec, poll) ∷ es) s w e c =
    let k = s.connection in
    let s' : ConnectOp = record s {
      connection = record k { error_context = polling_context k.error_context };
    } in
    wait-end (some ec) poll es s w e ∙ done-calls (some ec) es s' c
run_waits-calls ((none, pgres_polling_ok) ∷ es) s w e c =
    wait-end none pgres_polling_ok es s w e ∙ done-calls none es s c
run_waits-calls ((none, pgres_polling_failed) ∷ es) s w e c =
    wait-end none pgres_polling_failed es s w e ∙ done-calls _ es s c
run_waits-calls ((none, pgres_polling_active) ∷ es) s w e c =
    wait-end none pgres_polling_active es s w e ∙ done-calls _ es s c
run_waits-calls ((none, pgres_polling_reading) ∷ es) s w e c =
    wait-end none pgres_polling_reading es s w e
    ∙ run_waits-calls es (record s { waiting = some Wait.wait_read }) Wait.wait_read refl c
run_waits-calls ((none, pgres_polling_writing) ∷ es) s w e c =
    wait-end none pgres_polling_writing es s w e
    ∙ run_waits-calls es (record s { waiting = some Wait.wait_write }) Wait.wait_write refl c

-- What `perform` says to the handler at once.
abbrev pub status_answer : Bool → Option ℕ → Option (Option ErrorCode)
status_answer true socket = some (some (ozo_error OzoError.pq_connection_status_bad))
status_answer false none = some (some (ozo_error OzoError.pq_socket_failed))
status_answer false (some fd) = none

abbrev pub start_answer : Libpq → Option ℕ → Option (Option ErrorCode)
start_answer pq none = some (some (ozo_error OzoError.pq_connection_start_failed))
start_answer pq (some handle) =
    status_answer (connection_status_bad pq (some handle)) (pq.socket handle)

abbrev pub or_else :
    Option (Option ErrorCode) → Option (Option ErrorCode) → Option (Option ErrorCode)
or_else none b = b
or_else (some a) b = some a

ended-calls :
    (ec : Option ErrorCode) (es : List WaitEnd) (s : ConnectOp)
    → s.waiting ≡ none
    → s.calls ≡ ec ∷ []
    → (run_waits es s).calls ≡ ec ∷ []
ended-calls ec es s h c = ap (λ (x : ConnectOp). x.calls) (finished-ends es s h) ∙ c

abbrev at_start : Connection → ConnectOp
at_start c = record { connection = c; waiting = none; calls = [] }

assigned-calls :
    (handle : ℕ) (c : Connection) (es : List WaitEnd) (socket : Option ℕ)
    → (run_waits es (on_assigned handle (assign_socket socket handle c) (at_start c))).calls
      ≡ listed (or_else (status_answer false socket) (first_answer es))
unfolding on_assigned assign_socket drop_handle done
assigned-calls handle c es none =
    ended-calls (some (ozo_error OzoError.pq_socket_failed)) es
      (on_assigned handle (c, some (ozo_error OzoError.pq_socket_failed)) (at_start c)) refl refl
assigned-calls handle c es (some fd) =
    run_waits-calls es (on_assigned handle (assign_socket (some fd) handle c) (at_start c))
      Wait.wait_write refl refl

module _ (pq : Libpq) where
  status-calls :
      (handle : ℕ) (c : Connection) (es : List WaitEnd) (bad : Bool)
      → (run_waits es (on_status pq handle bad (at_start c))).calls
        ≡ listed (or_else (status_answer bad (pq.socket handle)) (first_answer es))
  unfolding on_status assign done drop_handle
  status-calls handle c es true =
      ended-calls (some (ozo_error OzoError.pq_connection_status_bad)) es
        (drop_handle handle
          (done (some (ozo_error OzoError.pq_connection_status_bad)) (at_start c)))
        refl refl
  status-calls handle c es false = assigned-calls handle c es (pq.socket handle)

  -- The handler of a connect operation is called once, with the first that says how it ended, and not
  -- called while nothing has: the start itself, if it gave no handle, a bad one or one without a socket, or
  -- else the end of a wait, by its error or by a status of polling that is not one of reading and writing.
  pub connect-calls :
      (handle : Option ℕ) (c : Connection) (es : List WaitEnd)
      → (connect pq handle c es).calls ≡ listed (or_else (start_answer pq handle) (first_answer es))
  unfolding connect perform
  connect-calls none c es =
      done-calls (some (ozo_error OzoError.pq_connection_start_failed)) es (at_start c) refl
  connect-calls (some handle) c es =
      status-calls handle c es (connection_status_bad pq (some handle))
