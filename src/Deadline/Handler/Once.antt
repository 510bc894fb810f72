-- ===== src/Deadline/Handler/Once.antt =====
-- The handler of an operation with a time constraint is called once.
use ozo_pg.Base.{◌≡◌, refl, [], ◌∷◌, Option, some, true, false}
use ozo_pg.Error.{ErrorCode, timed_out, Boost}
use ozo_pg.Deadline.Handler.{initial, operation, timer, run_ends}

-- Before both ends have come the handler is not called. When both have, it has been called once, with the
-- result of the operation, and with its error if it came first and `timed_out` otherwise; the timer has
-- been cancelled in the one case and the stream in the other.
run_ends-once :
    {R : Type 0} (b : Boost) (ec : Option ErrorCode) (r : R)
    → ((run_ends b (operation ec r ∷ []) initial).calls ≡ [])
      × ((run_ends b (timer ∷ []) (initial {R = R})).calls ≡ [])
      × (run_ends b (operation ec r ∷ timer ∷ []) initial ≡ record {
        first_call = 0;
        ec = ec;
        result = some r;
        stream_cancelled = false;
        timer_cancelled = true;
        calls = (ec, some r) ∷ [];
      })
      × ((run_ends b (timer ∷ operation ec r ∷ []) initial).calls
          ≡ (some (b.asio timed_out), some r) ∷ [])
      × ((run_ends b (timer ∷ operation ec r ∷ []) initial).stream_cancelled ≡ true)
unfolding run_ends initial
run_ends-once b ec r = (refl, refl, refl, refl, refl)
