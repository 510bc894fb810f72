-- ===== src/Failover/Completion.antt =====
-- An operation is handled once, for every strategy whose tries run out.
use ozo_pg.Base.{
  ℕ, suc, ◌+◌, ◌≤◌, ◌<◌, ◌≡◌, refl, List, [], ◌∷◌, ◌++◌, Option, none, some, length, arith,
}
use ozo_pg.Error.{ErrorCode}
use ozo_pg.Failover.{
  Connection, Event, started, notified, closed, handled, Outcome, FailoverTry, or_give_up,
  continuation, run, perform, count_started, count_handled,
}

pub count_started-append :
    (xs ys : List Event) → count_started (xs ++ ys) ≡ count_started xs + count_started ys
count_started-append [] ys = omega arith
count_started-append (started c ∷ xs) ys = omega (arith, count_started-append xs ys)
count_started-append (notified ec c ∷ xs) ys = count_started-append xs ys
count_started-append (closed c ∷ xs) ys = count_started-append xs ys
count_started-append (handled ec c ∷ xs) ys = count_started-append xs ys

pub count_handled-append :
    (xs ys : List Event) → count_handled (xs ++ ys) ≡ count_handled xs + count_handled ys
count_handled-append [] ys = omega arith
count_handled-append (started c ∷ xs) ys = count_handled-append xs ys
count_handled-append (notified ec c ∷ xs) ys = count_handled-append xs ys
count_handled-append (closed c ∷ xs) ys = count_handled-append xs ys
count_handled-append (handled ec c ∷ xs) ys = omega (arith, count_handled-append xs ys)

abbrev pub started_for {ℓ} : {A : Type ℓ} → Option A → ℕ
started_for none = 0
started_for (some a) = 1

-- What a strategy promises: `initiate_next_try` leaves the handler alone, starts the operation once if
-- there is a next try and not otherwise, and a next try has fewer retries left.
pub record IsStrategy (s : FailoverTry) : Type 0 where
  pub retries_left : s.Try → ℕ
  pub quiet :
      (t : s.Try) (now : ℕ) (ec : ErrorCode) (c : Connection)
      → count_handled (s.initiate_next_try t now ec c).0 ≡ 0
  pub starts :
      (t : s.Try) (now : ℕ) (ec : ErrorCode) (c : Connection)
      → count_started (s.initiate_next_try t now ec c).0
        ≡ started_for (s.initiate_next_try t now ec c).1
  pub falls :
      (t : s.Try) (now : ℕ) (ec : ErrorCode) (c : Connection) (t' : s.Try)
      → (s.initiate_next_try t now ec c).1 ≡ some t'
      → retries_left t' < retries_left t

-- One round: either the handler is called and nothing is started, or the operation is started again, by
-- a try with fewer retries.
module _ (s : FailoverTry) (law : IsStrategy s) where
  open law use {retries_left}

  abbrev RoundCounts : s.Try → List Event × Option s.Try → Type 0
  RoundCounts t (es, none) = (count_handled es ≡ 1) × (count_started es ≡ 0)
  RoundCounts t (es, some t') =
      (count_handled es ≡ 0) × (count_started es ≡ 1) × (retries_left t' < retries_left t)

  or_give_up-RoundCounts :
      (t : s.Try) (ec : ErrorCode) (c : Connection) (r : List Event × Option s.Try)
      → count_handled r.0 ≡ 0
      → count_started r.0 ≡ started_for r.1
      → ((t' : s.Try) → r.1 ≡ some t' → retries_left t' < retries_left t)
      → RoundCounts t (or_give_up s ec c r)
  or_give_up-RoundCounts t ec c (es, none) quiet starts falls =
      let h = count_handled-append es (handled (some ec) c ∷ []) in
      let k = count_started-append es (handled (some ec) c ∷ []) in (omega arith, omega arith)
  or_give_up-RoundCounts t ec c (es, some t') quiet starts falls = (quiet, starts, falls t' refl)

  continuation-RoundCounts :
      (t : s.Try) (failure : Option ErrorCode) (c : Connection) (now : ℕ)
      → RoundCounts t (continuation s t failure c now)
  unfolding continuation
  continuation-RoundCounts t none c now = (refl, refl)
  continuation-RoundCounts t (some ec) c now =
      or_give_up-RoundCounts t ec c (s.initiate_next_try t now ec c) (law.quiet t now ec c)
        (law.starts t now ec c) (law.falls t now ec c)

  -- What one round and the rest of a run come to.
  abbrev RunCounts : s.Try → List Event → ℕ → Type 0
  RunCounts t es n =
      (count_handled es ≤ 1)
      × (count_started es ≤ retries_left t)
      × (retries_left t < n → count_handled es ≡ 1)

  then_run-RunCounts :
      (t : s.Try) (r : List Event × Option s.Try) (os : List Outcome)
      → RoundCounts t r
      → ((t' : s.Try) → RunCounts t' (run s t' os) (length os))
      → RunCounts t (r.0 ++ elim r.1 [ none ↦ [] | some t' ↦ run s t' os ]) (suc (length os))
  then_run-RunCounts t (es, none) os (h, k) rest =
      let a = count_handled-append es [] in
      let b = count_started-append es [] in (omega arith, omega arith, λ l. omega arith)
  then_run-RunCounts t (es, some t') os (h, k, f) rest =
      let a = count_handled-append es (run s t' os) in
      let b = count_started-append es (run s t' os) in
      let (x, y, z) = rest t' in
      (omega arith, omega arith, λ l. let w = z (omega arith) in omega arith)

  run-RunCounts : (t : s.Try) (os : List Outcome) → RunCounts t (run s t os) (length os)
  unfolding run
  run-RunCounts t [] = (omega arith, omega arith, λ l. absurd (omega arith))
  run-RunCounts t (o ∷ os) =
      then_run-RunCounts t (continuation s t o.failure o.conn o.time) os
        (continuation-RoundCounts t o.failure o.conn o.time) (λ t'. run-RunCounts t' os)

  -- However an operation goes, it is started at most once more than the first try has retries, and its
  -- handler is called at most once.
  pub perform-bounded :
      (t : s.Try) (now : ℕ) (os : List Outcome)
      → (count_handled (perform s t now os) ≤ 1)
        × (count_started (perform s t now os) ≤ 1 + retries_left t)
  unfolding perform
  perform-bounded t now os = let (x, y, z) = run-RunCounts t os in (x, omega arith)

  -- Once the operation has come to an end as often as it is started at most, its handler has been called
  -- exactly once.
  pub perform-handled_once :
      (t : s.Try) (now : ℕ) (os : List Outcome)
      → retries_left t < length os
      → count_handled (perform s t now os) ≡ 1
  unfolding perform
  perform-handled_once t now os h = let (x, y, z) = run-RunCounts t os in z h
