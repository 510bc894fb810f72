-- ===== src/Pool.antt =====
-- connection_pool.h and impl/connection_pool.h: connections that are kept in a pool. The pool itself is a
-- library: a handle of it is empty, or holds what it keeps of a connection.
pub mod Correct
mod Examples
use ozo_pg.Base.{ℕ, List, [], ◌∷◌, ◌++◌, Option, none, some, Bool, true, false, not, if◌then◌else◌}
use ozo_pg.Base.Int.{ℤ, pos}
use ozo_pg.Error.{ErrorCode}
use ozo_pg.Deadline.{TimeConstraint, at, within, time_left}
use ozo_pg.Connection.{
  Libpq, Connection, release, connection_status_bad, connection_status_ok, TransactionStatus,
  status_of,
}

-- `connection_rep`, without the oid map and the statistics.
pub record ConnectionRep : Type 0 where
  pub safe_handle : Option ℕ
  pub error_context : List ℕ

-- `pooled_connection`: its handle of the pool, and the descriptor of its stream.
pub record PooledConnection : Type 0 where
  pub rep : Option ConnectionRep
  pub stream : Option ℕ

abbrev pub handle_of : Option ConnectionRep → Option ℕ
handle_of none = none
handle_of (some rep) = rep.safe_handle

unfoldable pub native_handle : PooledConnection → Option ℕ
native_handle p = handle_of p.rep

abbrev socket_of : Libpq → Option ℕ → Option ℕ
socket_of pq none = none
socket_of pq (some handle) = pq.socket handle

-- `pooled_connection::close` of a connection that the pool keeps: the handle that is finished.
unfoldable pub close_at : Option ConnectionRep → PooledConnection → PooledConnection × Option ℕ
close_at none p = (record p { stream = none }, none)
close_at (some rep) p =
    (record { rep = some (record rep { safe_handle = none }); stream = none }, rep.safe_handle)

unfoldable pub close : PooledConnection → PooledConnection × Option ℕ
unfolding close_at
close p = close_at p.rep p

-- What becomes of a connection that the pool keeps when the pooled connection is destroyed. `terminated`:
-- the status of the transaction is none that is known, and the destructor throws.
pub data Fate : Type 0 where
  nothing terminated : Fate
  wasted recycled : ConnectionRep → Fate

abbrev status_fate : Option TransactionStatus → ConnectionRep → Fate
status_fate none rep = terminated
status_fate (some TransactionStatus.idle) rep = recycled rep
status_fate (some _) rep = wasted rep

unfoldable pub fate : Bool → Option TransactionStatus → Option ConnectionRep → Fate
fate is_bad status none = nothing
fate true status (some rep) = wasted rep
fate false status (some rep) = status_fate status rep

-- What the handler of a request for a connection is called with.
abbrev pub PoolCall : Type 0
PoolCall = Option ErrorCode × Option PooledConnection

-- What the pool's own handler does: it calls the handler, or asks the source for a new connection and keeps
-- the handle for it.
pub data Obtained : Type 0 where
  called : PoolCall → Obtained
  connecting : Option ConnectionRep → Obtained

module _ (pq : Libpq) where
  unfoldable pub create_pooled_connection : Option ConnectionRep → PooledConnection
  create_pooled_connection rep = record { rep = rep; stream = socket_of pq (handle_of rep) }

  unfoldable pub is_bad : PooledConnection → Bool
  unfolding native_handle connection_status_ok
  is_bad p = not (connection_status_ok pq (native_handle p))

  -- The destructor.
  unfoldable pub destroy : PooledConnection → Fate
  unfolding fate is_bad status_of native_handle
  destroy p = fate (is_bad p) (status_of (pq.transaction_status (native_handle p))) p.rep

  unfoldable pub obtain_usable : Bool → ConnectionRep → Obtained
  unfolding create_pooled_connection
  obtain_usable true rep = connecting (some rep)
  obtain_usable false rep = called (none, some (create_pooled_connection (some rep)))

  -- `pooled_connection_wrapper::operator ()`
  unfoldable pub obtain : Option ErrorCode → Option ConnectionRep → Obtained
  unfolding obtain_usable connection_status_bad
  obtain (some ec) handle = called (some ec, none)
  obtain none none = connecting none
  obtain none (some rep) = obtain_usable (connection_status_bad pq rep.safe_handle) rep

  -- `pooled_connection_wrapper::wrapper::operator ()`: the handler's call, and the connection that is left
  -- of the one that the source gave.
  unfoldable pub wrap : Option ErrorCode → Option Connection → PoolCall × Option Connection
  unfolding create_pooled_connection release
  wrap ec none = ((ec, none), none)
  wrap ec (some target) =
      let (left, handle) = release target in
      (
        (
          ec,
          some (
              create_pooled_connection
                (some (record { safe_handle = handle; error_context = left.error_context }))),
        ),
        some left,
      )

  unfoldable pub answered : Obtained → Option ErrorCode × Option Connection → PoolCall
  unfolding wrap
  answered (called call) source = call
  answered (connecting handle) (ec, conn) = (wrap ec conn).0

  -- A whole request, where the source gives what is said, if it is asked.
  unfoldable pub get_connection :
      Option ErrorCode → Option ConnectionRep → Option ErrorCode × Option Connection → PoolCall
  unfolding obtain answered
  get_connection ec handle source = answered (obtain ec handle) source

-- `queue_timeout`
unfoldable pub queue_timeout : TimeConstraint → ℕ → ℤ
unfolding time_left
queue_timeout TimeConstraint.none now = pos 0
queue_timeout (at t) now = pos (time_left t now)
queue_timeout (within t) now = t
