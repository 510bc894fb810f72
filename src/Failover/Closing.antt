-- ===== src/Failover/Closing.antt =====
-- `defer_close_connection` of connection.h: what its guard leaves of a connection.
use ozo_pg.Base.{ℕ, ◌≡◌, refl, none, some, Bool, true, false}
use ozo_pg.Failover.{Connection, close_deferred, count_started, count_handled, count_closed}

pub close_deferred-counts :
    (close : Bool) (c : Connection)
    → (count_handled (close_deferred close c) ≡ 0) × (count_started (close_deferred close c) ≡ 0)
unfolding close_deferred
close_deferred-counts close none = (refl, refl)
close_deferred-counts true (some c) = (refl, refl)
close_deferred-counts false (some c) = (refl, refl)

abbrev pub closes : Bool → Connection → ℕ
closes true (some c) = 1
closes true none = 0
closes false c = 0

pub close_deferred-closes :
    (close : Bool) (c : Connection) → count_closed (close_deferred close c) ≡ closes close c
unfolding close_deferred
close_deferred-closes true none = refl
close_deferred-closes false none = refl
close_deferred-closes true (some c) = refl
close_deferred-closes false (some c) = refl
