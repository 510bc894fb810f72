-- ===== src/Connection.antt =====
-- connection.h, impl/connection.h, transaction_status.h and pg/handle.h: a connection, its handle of libpq
-- and its socket. A handle is its number; `none` is the null pointer.
pub mod Handles
pub mod Message
mod Examples
use ozo_pg.Base.{
  ℕ, List, [], ◌∷◌, ◌++◌, Option, none, some, Bool, true, false, not, if◌then◌else◌, Result, ok,
  thrown,
}
use ozo_pg.Error.{OzoError, ErrorCode, ozo_error}

-- `ConnStatusType`, as far as the code tells its values apart, and `PGTransactionStatusType`.
pub data ConnStatus : Type 0 where
  connection_ok connection_bad connection_other : ConnStatus

pub data PgTransactionStatus : Type 0 where
  pqtrans_unknown pqtrans_idle pqtrans_active pqtrans_intrans pqtrans_inerror : PgTransactionStatus
  pqtrans_other : ℕ → PgTransactionStatus

-- `== CONNECTION_BAD` and `== CONNECTION_OK`
abbrev pub is_connection_bad : ConnStatus → Bool
is_connection_bad ConnStatus.connection_bad = true
is_connection_bad _ = false

abbrev pub is_connection_ok : ConnStatus → Bool
is_connection_ok ConnStatus.connection_ok = true
is_connection_ok _ = false

-- What libpq says of a handle: `PQstatus`, `PQtransactionStatus`, `PQsocket` with `none` for -1, and
-- `PQerrorMessage`.
pub record Libpq : Type 0 where
  pub status : ℕ → ConnStatus
  pub transaction_status : Option ℕ → PgTransactionStatus
  pub socket : ℕ → Option ℕ
  pub error_message : Option ℕ → List ℕ

-- `connection`: its handle, the descriptor that its socket holds, its error context, and the handles that
-- `PQfinish` has been called for.
pub record Connection : Type 0 where
  pub handle : Option ℕ
  pub socket : Option ℕ
  pub error_context : List ℕ
  pub finished : List ℕ

abbrev pub new_connection : Connection
new_connection = record { handle = none; socket = none; error_context = []; finished = [] }

-- The deleter of `pg::conn`.
abbrev pub finish : Option ℕ → List ℕ → List ℕ
finish none finished = finished
finish (some handle) finished = handle ∷ finished

unfoldable pub assign_socket : Option ℕ → ℕ → Connection → Connection × Option ErrorCode
assign_socket none handle c = (c, some (ozo_error OzoError.pq_socket_failed))
assign_socket (some fd) handle c = (
  record c { handle = some handle; socket = some fd; finished = finish c.handle c.finished },
  none,
)

unfoldable pub release : Connection → Connection × Option ℕ
release c = (record c { handle = none; socket = none }, c.handle)

unfoldable pub close : Connection → Connection
unfolding release
close c = let (c', handle) = release c in record c' { finished = finish handle c'.finished }

-- The destructor.
unfoldable pub destroy : Connection → Connection
unfolding close
destroy c = close c

module _ (pq : Libpq) where
  unfoldable pub assign : ℕ → Connection → Connection × Option ErrorCode
  unfolding assign_socket
  assign handle c = assign_socket (pq.socket handle) handle c

  unfoldable pub connection_status_bad : Option ℕ → Bool
  connection_status_bad none = true
  connection_status_bad (some handle) = is_connection_bad (pq.status handle)

  unfoldable pub connection_status_ok : Option ℕ → Bool
  connection_status_ok none = false
  connection_status_ok (some handle) = is_connection_ok (pq.status handle)

  unfoldable pub is_bad : Connection → Bool
  unfolding connection_status_ok
  is_bad c = not (connection_status_ok c.handle)

  -- `connection_bad` of a connection that may be null.
  unfoldable pub connection_is_bad : Option Connection → Bool
  unfolding is_bad
  connection_is_bad none = true
  connection_is_bad (some c) = is_bad c

-- `transaction_status`
pub data TransactionStatus : Type 0 where
  unknown idle active transaction error : TransactionStatus

unfoldable pub status_of : PgTransactionStatus → Option TransactionStatus
status_of PgTransactionStatus.pqtrans_unknown = some TransactionStatus.unknown
status_of PgTransactionStatus.pqtrans_idle = some TransactionStatus.idle
status_of PgTransactionStatus.pqtrans_active = some TransactionStatus.active
status_of PgTransactionStatus.pqtrans_intrans = some TransactionStatus.transaction
status_of PgTransactionStatus.pqtrans_inerror = some TransactionStatus.error
status_of (PgTransactionStatus.pqtrans_other n) = none

-- `none`: `std::invalid_argument` is thrown.
unfoldable pub get_transaction_status : Libpq → Option Connection → Option TransactionStatus
unfolding status_of
get_transaction_status pq none = some TransactionStatus.unknown
get_transaction_status pq (some c) = status_of (pq.transaction_status c.handle)
