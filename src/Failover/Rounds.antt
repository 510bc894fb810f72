-- ===== src/Failover/Rounds.antt =====
-- How a run goes on after a failure.
use ozo_pg.Base.{◌+◌, ◌≡◌, ap, sym, List, [], ◌∷◌, ◌++◌, Option, none, some, arith}
use ozo_pg.Error.{ErrorCode}
use ozo_pg.Failover.{
  Connection, Event, handled, Outcome, FailoverTry, or_give_up, continuation, run, count_started,
}
use ozo_pg.Failover.Completion.{IsStrategy, started_for, count_started-append}

module _ (s : FailoverTry) (law : IsStrategy s) where
  abbrev then_run : List Event × Option s.Try → List Outcome → List Event
  then_run r os = r.0 ++ elim r.1 [ none ↦ [] | some t' ↦ run s t' os ]

  then_run_again :
      (ec : ErrorCode) (c : Connection) (r : List Event × Option s.Try) (t' : s.Try)
      (os : List Outcome)
      → count_started r.0 ≡ started_for r.1
      → r.1 ≡ some t'
      → count_started (then_run (or_give_up s ec c r) os) ≡ 1 + count_started (run s t' os)
  then_run_again ec c (es, none) t' os k e = absurd cc
  then_run_again ec c (es, some u) t' os k e =
      let a = count_started-append es (run s u os) in
      let same : u ≡ t' = ap (λ o. elim o [ none ↦ u | some v ↦ v ]) e in
      rw (sym same) (omega arith)

  then_run_over :
      (ec : ErrorCode) (c : Connection) (r : List Event × Option s.Try) (os : List Outcome)
      → count_started r.0 ≡ started_for r.1
      → r.1 ≡ none
      → count_started (then_run (or_give_up s ec c r) os) ≡ 0
  then_run_over ec c (es, none) os k e =
      let a = count_started-append es (handled (some ec) c ∷ []) in
      let a' = count_started-append (es ++ (handled (some ec) c ∷ [])) [] in omega arith
  then_run_over ec c (es, some u) os k e = absurd cc

  pub run-again :
      (t : s.Try) (o : Outcome) (os : List Outcome) (ec : ErrorCode) (t' : s.Try)
      → o.failure ≡ some ec
      → (s.initiate_next_try t o.time ec o.conn).1 ≡ some t'
      → count_started (run s t (o ∷ os)) ≡ 1 + count_started (run s t' os)
  unfolding run continuation
  run-again t o os ec t' f e = rw (f) (
      then_run_again ec o.conn (s.initiate_next_try t o.time ec o.conn) t' os
        (law.starts t o.time ec o.conn) e)

  pub run-over :
      (t : s.Try) (o : Outcome) (os : List Outcome) (ec : ErrorCode)
      → o.failure ≡ some ec
      → (s.initiate_next_try t o.time ec o.conn).1 ≡ none
      → count_started (run s t (o ∷ os)) ≡ 0
  unfolding run continuation
  run-over t o os ec f e = rw (f) (
      then_run_over ec o.conn (s.initiate_next_try t o.time ec o.conn) os
        (law.starts t o.time ec o.conn) e)
