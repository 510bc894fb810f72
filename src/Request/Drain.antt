-- ===== src/Request/Drain.antt =====
-- The loop that drops the results behind the one that is handled.
use ozo_pg.Base.{◌≡◌, none, some, Bool, true, false}
use ozo_pg.Request.{Libpq}

module _ (pq : Libpq) where
  open pq use {Native, Res}

  -- How the loop ends, without a bound: it waits where libpq is busy, it is over where there is no result,
  -- and else the result is dropped.
  pub data Drained : Native → Bool × Native → Type 0 where
    busy : (n : Native) → pq.is_busy n ≡ true → Drained n (true, n)
    over :
        (n : Native)
        → pq.is_busy n ≡ false
        → (pq.get_result n).0 ≡ none
        → Drained n (false, (pq.get_result n).1)
    dropped :
        (n : Native) (r : Res) (end : Bool × Native)
        → pq.is_busy n ≡ false
        → (pq.get_result n).0 ≡ some r
        → Drained (pq.get_result n).1 end
        → Drained n end
