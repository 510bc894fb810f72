-- ===== src/Deadline/Handler/Around.antt =====
-- detail/deadline.h: an operation that calls its handler once at most, with a deadline handler around it.
use ozo_pg.Base.{
  ◌≤◌, ◌≡◌, refl, ap, ◌⊎◌, inl, inr, List, [], ◌∷◌, ◌++◌, Option, some, Bool, true, false, map,
  length, arith,
}
use ozo_pg.Error.{ErrorCode, Boost, timed_out}
use ozo_pg.Deadline.Handler.{DeadlineContext, initial, on_operation, on_timer, deliver}

-- What the handler has been called with.
abbrev pub calls_of : {R : Type 0} → DeadlineContext R → List (Option ErrorCode)
calls_of c = map (λ call. call.0) c.calls

-- As the operation calls it, or with `timed_out`.
abbrev pub IsAnswered : Boost → List (Option ErrorCode) → List (Option ErrorCode) → Type 0
IsAnswered b user own = (user ≡ own) ⊎ (user ≡ some (b.asio timed_out) ∷ [])

abbrev pub has_called : List (Option ErrorCode) → Bool
has_called [] = false
has_called (ec ∷ ecs) = true

-- The operation has called its handler, and the timer is not pending.
abbrev pub has_ended_at : Bool → List (Option ErrorCode) → Bool
has_ended_at true own = false
has_ended_at false own = has_called own

-- The calls of the handler behind, as they belong to whether there is an end, and to the operation's own.
abbrev pub AreExpected : Boost → Bool → List (Option ErrorCode) → List (Option ErrorCode) → Type 0
AreExpected b true user own = (length user ≡ 1) × IsAnswered b user own
AreExpected b false user own = user ≡ []

pub own-AreExpected :
    (b : Boost) (own : List (Option ErrorCode))
    → length own ≤ 1
    → AreExpected b (has_called own) own own
own-AreExpected b [] few = refl
own-AreExpected b (ec ∷ []) few = (refl, inl refl)
own-AreExpected b (ec ∷ ec' ∷ ecs) few = absurd (omega (arith, few))

module _ {R : Type 0} (b : Boost) where
  -- The context, as it belongs to whether the timer is pending and to the calls of the operation, of which
  -- there is one at most.
  abbrev pub ContextAt : Bool → List (Option ErrorCode) → DeadlineContext R → Type 0
  ContextAt true [] c = c ≡ initial
  ContextAt false [] c = c ≡ on_timer b initial
  ContextAt true (ec ∷ []) c = (n : R) × (c ≡ on_operation ec n initial)
  ContextAt false (ec ∷ []) c =
      (n : R) × ((c ≡ on_timer b (on_operation ec n initial))
        ⊎ (c ≡ on_operation ec n (on_timer b initial)))
  ContextAt timing (ec ∷ ec' ∷ ecs) c = Unit

  pub deliver-ContextAt :
      (timing : Bool) (old new : List (Option ErrorCode)) (n : R) (c : DeadlineContext R)
      → ContextAt timing old c
      → ContextAt timing (old ++ new) (deliver new n c)
  unfolding deliver
  deliver-ContextAt true [] [] n c h = h
  deliver-ContextAt false [] [] n c h = h
  deliver-ContextAt true [] (ec ∷ []) n c h = (n, ap (on_operation ec n) h)
  deliver-ContextAt false [] (ec ∷ []) n c h = (n, inr (ap (on_operation ec n) h))
  deliver-ContextAt timing [] (ec ∷ ec' ∷ ecs) n c h = tt
  deliver-ContextAt true (ec ∷ []) [] n c h = h
  deliver-ContextAt false (ec ∷ []) [] n c h = h
  deliver-ContextAt timing (ec ∷ []) (ec' ∷ ecs) n c h = tt
  deliver-ContextAt timing (ec ∷ ec' ∷ ecs) new n c h = tt

  pub timer-ContextAt :
      (calls : List (Option ErrorCode)) (c : DeadlineContext R)
      → ContextAt true calls c
      → ContextAt false calls (on_timer b c)
  timer-ContextAt [] c h = ap (on_timer b) h
  timer-ContextAt (ec ∷ []) c (n, h) = (n, inl (ap (on_timer b) h))
  timer-ContextAt (ec ∷ ec' ∷ ecs) c h = tt

  pub context-AreExpected :
      (timing : Bool) (own : List (Option ErrorCode)) (c : DeadlineContext R)
      → length own ≤ 1
      → ContextAt timing own c
      → AreExpected b (has_ended_at timing own) (calls_of c) own
  unfolding on_operation on_timer initial
  context-AreExpected true [] c few h = ap calls_of h
  context-AreExpected false [] c few h = ap calls_of h
  context-AreExpected true (ec ∷ []) c few (n, h) = ap calls_of h
  context-AreExpected false (ec ∷ []) c few (n, inl h) =
      (ap (λ x. length (calls_of x)) h, inl (ap calls_of h))
  context-AreExpected false (ec ∷ []) c few (n, inr h) =
      (ap (λ x. length (calls_of x)) h, inr (ap calls_of h))
  context-AreExpected timing (ec ∷ ec' ∷ ecs) c few h = absurd (omega (arith, few))
