-- ===== src/Failover/Retry/Failing.antt =====
-- How often `retry_strategy` starts an operation that goes on failing.
use ozo_pg.Base.{
  ℕ, ◌+◌, ◌-◌, ◌<◌, ◌≡◌, refl, ◌∙◌, inl, inr, List, [], ◌∷◌, some, true, All, length, ltb,
  Bool-cases, arith,
}
use ozo_pg.Base.Int.{ℤ, pos, negsuc}
use ozo_pg.Error.{ErrorCode, Errc, Boost}
use ozo_pg.Failover.{Context, Outcome, run, perform, count_started}
use ozo_pg.Failover.Rounds.{run-again, run-over}
use ozo_pg.Failover.Retry.{
  RetryOptions, BasicTry, get_first_try, adjust_tries_remain, get_next_try, retry_try,
}
use ozo_pg.Failover.Retry.Tries.{
  retries, next_options, accepts, get_next_try-next, start_next-next, retry-IsStrategy,
}

retries-adjust : (n : ℤ) → retries (adjust_tries_remain n) ≡ retries n - 1
unfolding adjust_tries_remain
retries-adjust (pos n) = refl
retries-adjust (negsuc n) = refl

module _ (b : Boost) where
  -- An outcome is a failure that the conditions accept.
  abbrev pub IsRetriable : List Errc → Outcome → Type 0
  IsRetriable conditions o =
      (ec : ErrorCode) × (o.failure ≡ some ec) × (accepts b conditions ec ≡ true)

  run-failing :
      (t : BasicTry) (os : List Outcome)
      → All (IsRetriable t.options.conditions) os
      → retries t.options.tries < length os
      → count_started (run (retry_try b) t os) ≡ retries t.options.tries
  run-failing t [] h l = absurd (omega arith)
  run-failing t (o ∷ os) ((ec, f, a), h) l =
      let next =
        start_next-next o.time (get_next_try b t ec o.conn) ∙ get_next_try-next b t ec o.conn in
      let t' : BasicTry = record { ctx = t.ctx; options = next_options t.options } in
      let fewer = retries-adjust t.options.tries in
      elim (Bool-cases (ltb 0 (retries t.options.tries))) [
        | inl more ↦
            let again =
              run-again (retry_try b) (retry-IsStrategy b) t o os ec t' f (rw (more, a) at next) in
            let positive : 0 < retries t.options.tries = ground arith in
            let rest = run-failing t' os h (omega arith) in omega arith
        | inr over ↦
            let done =
              run-over (retry_try b) (retry-IsStrategy b) t o os ec f (rw (over) at next) in
            ground arith
      ]

  -- When an operation has failed more often than retries are left to its first try, each time with
  -- an error that the conditions accept, it has been started exactly as often as there are tries,
  -- and once if there are none.
  pub retry-exhausted :
      (options : RetryOptions) (ctx : Context) (now : ℕ) (os : List Outcome)
      → All (IsRetriable options.conditions) os
      → retries options.tries < length os
      → count_started (perform (retry_try b) (get_first_try options ctx now) now os)
        ≡ 1 + retries options.tries
  unfolding perform get_first_try
  retry-exhausted options ctx now os h l =
      let rest = run-failing (get_first_try options ctx now) os h l in omega arith
