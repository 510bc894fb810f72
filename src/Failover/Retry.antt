-- ===== src/Failover/Retry.antt =====
-- failover/retry.h: `basic_try` and `retry_strategy`. The clock is an argument, and `on_retry` is the
-- event `notified`, whether or not a handler for it is set.
pub mod Tries
pub mod Failing
use ozo_pg.Base.{
  ℕ, ◌-◌, List, [], ◌∷◌, ◌++◌, Option, none, some, Bool, true, false, ltb, not, if◌then◌else◌,
}
use ozo_pg.Base.Int.{ℤ, pos, negsuc}
use ozo_pg.Deadline.{TimeConstraint, deadline, get_try_time_constraint}
use ozo_pg.Error.{ErrorCode, Errc, Boost, match_any}
use ozo_pg.Failover.{
  Context, Connection, Event, started, notified, close_deferred, or_true, FailoverTry,
}

-- `retry_options`, the options of a `retry_strategy`; no conditions stand for the option not set.
pub record RetryOptions : Type 0 where
  pub tries : ℤ
  pub conditions : List Errc
  pub close_connection : Option Bool

pub record BasicTry : Type 0 where
  pub ctx : Context
  pub options : RetryOptions

abbrev pub get_context : BasicTry → ℕ → Context
get_context t now = record t.ctx {
  time_constraint = get_try_time_constraint t.ctx.time_constraint t.options.tries now;
}

-- `retry_strategy::get_first_try`.
unfoldable pub get_first_try : RetryOptions → Context → ℕ → BasicTry
get_first_try options ctx now = record {
  ctx = record ctx { time_constraint = deadline ctx.time_constraint now };
  options = options;
}

-- `std::max(0, tries_remain() - 1)`.
unfoldable pub adjust_tries_remain : ℤ → ℤ
adjust_tries_remain (pos n) = pos (n - 1)
adjust_tries_remain (negsuc n) = pos 0

abbrev is_positive : ℤ → Bool
is_positive (pos n) = ltb 0 n
is_positive (negsuc n) = false

-- `initiate_next_try_impl::apply` of failover/strategy.h.
abbrev pub start_next : ℕ → List Event × Option BasicTry → List Event × Option BasicTry
start_next now (es, none) = (es, none)
start_next now (es, some t) = (es ++ (started (get_context t now) ∷ []), some t)

module _ (b : Boost) where
  unfoldable pub can_retry : RetryOptions → ErrorCode → Bool
  can_retry o ec =
      if not (is_positive o.tries)
      then false
      else elim o.conditions [ [] ↦ true | c ∷ cs ↦ match_any b (c ∷ cs) ec ]

  -- The guard closes the connection when `get_next_try` returns.
  unfoldable pub get_next_try : BasicTry → ErrorCode → Connection → List Event × Option BasicTry
  unfolding close_deferred
  get_next_try t ec c =
      let options = record t.options { tries = adjust_tries_remain t.options.tries } in
      let close = close_deferred (or_true options.close_connection) c in
      if can_retry options ec
      then (notified ec c ∷ close, some (record { ctx = t.ctx; options = options }))
      else (close, none)

  abbrev pub retry_try : FailoverTry
  retry_try = record {
    Try = BasicTry;
    get_context = get_context;
    initiate_next_try = λ t now ec c. start_next now (get_next_try t ec c);
  }
