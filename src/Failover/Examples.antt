-- ===== src/Failover/Examples.antt =====
-- Strategies on which the theorems on failover/ are run.
use ozo_pg.Base.{ℕ, inl, inr, ◌+◌, arith, ◌≡◌, refl, List, [], ◌∷◌, none, some, Bool, ltb}
use ozo_pg.Base.Int.{pos}
use ozo_pg.Deadline.{TimeConstraint, deadline}
use ozo_pg.Error.{ErrorCode, sql_state, OzoError, Errc, ozo_error}
use ozo_pg.Error.Examples.{linux}
use ozo_pg.Failover.{
  Context, Connection, Event, notified, started, close_deferred, or_true, Outcome, perform,
  count_started, count_handled, count_closed,
}
use ozo_pg.Failover.Retry.{RetryOptions, BasicTry, get_next_try, retry_try}
use ozo_pg.Failover.Retry.Tries.{retry-handled_once}
use ozo_pg.Failover.Retry.Failing.{retry-exhausted}
use ozo_pg.Failover.RoleBased.{Role, master, replica, custom}
use ozo_pg.Failover.RoleBased.Sources.{
  Sources, source_of, make_role_based_connection_source, connection_after,
  rebind_all-get_connection,
}
use ozo_pg.Failover.RoleBased.Roles.{role_based-handled_once, run_over}
use ozo_pg.Failover.RoleBased.Fallback.{contexts, context_on, fallbacks, run_over-contexts}

abbrev refused : ErrorCode
refused = ozo_error OzoError.pq_connection_start_failed

abbrev readonly : ErrorCode
readonly = record { category = sql_state; value = 3592518 }

abbrev ctx : Context
ctx = record { provider = 1; time_constraint = TimeConstraint.within (pos 60); args = 2 }

abbrev options : RetryOptions
options = record { tries = pos 3; conditions = Errc.connection_error ∷ []; close_connection = none }

abbrev any_error : RetryOptions
any_error = record options { conditions = [] }

abbrev twice : RetryOptions
twice = record options { tries = pos 2 }

abbrev a_try : BasicTry
a_try = record { ctx = ctx; options = options }

-- A try that fails on connection 5, and one that succeeds.
abbrev outcomes : List Outcome
outcomes =
    record { failure = some refused; conn = some 5; time = 15 }
    ∷ record { failure = none; conn = some 6; time = 30 }
    ∷ []

retry-handled_once_example :
    count_handled
      (perform (retry_try linux) (ozo_pg.Failover.Retry.get_first_try twice ctx 0) 0 outcomes)
    ≡ 1
retry-handled_once_example = retry-handled_once linux twice ctx 0 outcomes (omega arith)

-- Three failures of three tries.
abbrev failures : List Outcome
failures =
    record { failure = some refused; conn = some 5; time = 15 }
    ∷ record { failure = some refused; conn = none; time = 30 }
    ∷ record { failure = some refused; conn = some 6; time = 50 }
    ∷ []

retry-exhausted_example :
    count_started
      (perform (retry_try linux) (ozo_pg.Failover.Retry.get_first_try any_error ctx 0) 0 failures)
    ≡ 3
retry-exhausted_example =
    retry-exhausted linux any_error ctx 0 failures
      ((refused, refl, refl), ((refused, refl, refl), ((refused, refl, refl), tt))) (omega arith)

-- Custom role 0 recovers nothing; rebinding to a role gives a provider another identity.
abbrev custom_recovers : ℕ → ErrorCode → Bool
custom_recovers n ec = ltb 0 n

abbrev from : Context → Context
from c = record c { time_constraint = deadline c.time_constraint 0 }

abbrev rebind : ℕ → Role → ℕ
rebind provider master = 10 + provider
rebind provider replica = 20 + provider
rebind provider (custom n) = 30 + n

run_over-contexts_example :
    contexts (
      run_over linux custom_recovers rebind
        (custom 0)
        (custom 0 ∷ custom 1 ∷ [])
        none
        ctx
        0
        outcomes)
    ≡ context_on linux custom_recovers rebind (from ctx) (custom 0) (custom 0 ∷ custom 1 ∷ []) 0
      ∷ fallbacks linux custom_recovers rebind (from ctx) (custom 0 ∷ custom 1 ∷ []) outcomes
run_over-contexts_example =
    run_over-contexts linux custom_recovers rebind (custom 0) (custom 0 ∷ custom 1 ∷ []) none ctx 0
      outcomes

role_based-handled_once_example :
    count_handled (run_over linux custom_recovers rebind master (replica ∷ []) none ctx 0 outcomes)
    ≡ 1
role_based-handled_once_example =
    role_based-handled_once linux custom_recovers rebind master (replica ∷ []) none ctx 0 outcomes
      (omega arith)

abbrev sources : Sources ℕ
sources = (replica, λ ex t. (some refused, ex + 1)) ∷ (custom 3, λ ex t. (none, ex + 2)) ∷ []

rebind_all-get_connection_example :
    connection_after
      (replica ∷ custom 3 ∷ [])
      (record {
        source = make_role_based_connection_source (master, λ ex t. (none, ex)) sources;
        ex = 7;
      })
      TimeConstraint.none
    ≡ some (none, 9)
unfolding source_of
rebind_all-get_connection_example =
    rebind_all-get_connection (master, λ ex t. (none, ex)) sources 7 (replica ∷ []) (custom 3)
      (λ ex t. (none, ex + 2)) TimeConstraint.none (refl, tt)
      (inr (refl, inr (refl, inl (refl, refl))))
