-- ===== src/Pool/Examples.antt =====
-- Connections of a pool, of which the one with handle 3 is in a transaction and that with 4 has gone bad.
use ozo_pg.Base.{ℕ, ◌≡◌, ◌↔◌, refl, [], Option, none, some, ◌==◌, if◌then◌else◌}
use ozo_pg.Error.{ErrorCode}
use ozo_pg.Connection.{Libpq, ConnStatus, PgTransactionStatus, Connection, connection_status_bad}
use ozo_pg.Pool.{ConnectionRep, PooledConnection, wasted, recycled, destroy, get_connection}
use ozo_pg.Pool.Correct.{IsReusable, IsServed, destroy-recycled_iff, get_connection-IsServed}

abbrev status_in : Option ℕ → PgTransactionStatus
status_in none = PgTransactionStatus.pqtrans_unknown
status_in (some h) =
    if h == 3 then PgTransactionStatus.pqtrans_intrans else PgTransactionStatus.pqtrans_idle

abbrev server : Libpq
server = record {
  status = λ h. if h == 4 then ConnStatus.connection_bad else ConnStatus.connection_ok;
  transaction_status = status_in;
  socket = λ h. some h;
  error_message = λ o. [];
}

abbrev rep_of : ℕ → ConnectionRep
rep_of h = record { safe_handle = some h; error_context = [] }

abbrev pooled : ℕ → PooledConnection
pooled h = record { rep = some (rep_of h); stream = some h }

destroy-recycled_iff_example :
    (destroy server (pooled 2) ≡ recycled (rep_of 2))
    ↔ (((pooled 2).rep ≡ some (rep_of 2)) × IsReusable server (rep_of 2).safe_handle)
destroy-recycled_iff_example = destroy-recycled_iff server (pooled 2) (rep_of 2)

in_transaction : destroy server (pooled 3) ≡ wasted (rep_of 3)
unfolding destroy
in_transaction = refl

abbrev fresh : Option ErrorCode × Option Connection
fresh =
    (none, some (record { handle = some 5; socket = some 5; error_context = []; finished = [] }))

-- The bad connection is replaced.
get_connection-IsServed_example :
    IsServed server (get_connection server none (some (rep_of 4)) fresh)
unfolding connection_status_bad
get_connection-IsServed_example = get_connection-IsServed server none (some (rep_of 4)) fresh refl
