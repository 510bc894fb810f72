-- ===== src/Failover/Retry/Tries.antt =====
-- How often `retry_strategy` starts an operation, when, and what becomes of the connections.
use ozo_pg.Base.{
  ℕ, ◌+◌, ◌-◌, ◌≤◌, ◌<◌, ◌≡◌, refl, inl, inr, List, [], ◌∷◌, Option, none, some, Bool, true, false,
  true≢false, not, ◌&&◌, sym, ap, ◌∙◌, length, ltb, if◌then◌else◌, Bool-cases, arith,
}
use ozo_pg.Base.Int.{ℤ, pos, negsuc}
use ozo_pg.Error.{ErrorCode, Errc, Boost, match_any}
use ozo_pg.Failover.{
  Context, Connection, Event, started, or_true, Outcome, perform, count_started, count_handled,
  count_closed,
}
use ozo_pg.Failover.Completion.{
  IsStrategy, started_for, count_started-append, count_handled-append, perform-handled_once,
  perform-bounded,
}
use ozo_pg.Failover.Closing.{closes, close_deferred-counts, close_deferred-closes}
use ozo_pg.Failover.Retry.{
  RetryOptions, BasicTry, get_context, get_first_try, adjust_tries_remain, can_retry, get_next_try,
  start_next, retry_try,
}

and_left : (x y : Bool) → (x && y) ≡ true → x ≡ true
and_left true y e = refl
and_left false y e = e

-- The number of tries that are left after the one at hand.
abbrev pub retries : ℤ → ℕ
retries (pos n) = n - 1
retries (negsuc n) = 0

abbrev pub next_options : RetryOptions → RetryOptions
next_options o = record o { tries = adjust_tries_remain o.tries }

if_not-false : (x y : Bool) → (if not x then false else y) ≡ (x && y)
if_not-false true y = refl
if_not-false false y = refl

pub start_next-quiet :
    (now : ℕ) (r : List Event × Option BasicTry)
    → count_handled r.0 ≡ 0
    → count_handled (start_next now r).0 ≡ 0
start_next-quiet now (es, none) h = h
start_next-quiet now (es, some t) h =
    let a = count_handled-append es (started (get_context t now) ∷ []) in omega arith

pub start_next-starts :
    (now : ℕ) (r : List Event × Option BasicTry)
    → count_started r.0 ≡ 0
    → count_started (start_next now r).0 ≡ started_for (start_next now r).1
start_next-starts now (es, none) h = h
start_next-starts now (es, some t) h =
    let a = count_started-append es (started (get_context t now) ∷ []) in omega arith

pub start_next-next : (now : ℕ) (r : List Event × Option BasicTry) → (start_next now r).1 ≡ r.1
start_next-next now (es, none) = refl
start_next-next now (es, some t) = refl

retries-falls : (n : ℤ) → ltb 0 (retries n) ≡ true → retries (adjust_tries_remain n) < retries n
unfolding adjust_tries_remain
retries-falls (pos n) h = ground arith
retries-falls (negsuc n) h = ground arith

some_if :
    {A : Type 0} (x : Bool) (a c : A) → (if x then some a else none) ≡ some c → (x ≡ true) × (a ≡ c)
some_if true a c e = (refl, ap (λ o. elim o [ none ↦ a | some d ↦ d ]) e)
some_if false a c e = absurd (true≢false (ap (λ o. elim o [ none ↦ true | some d ↦ false ]) e))

module _ (b : Boost) where
  -- The conditions of the options, as a predicate: no conditions accept any error.
  abbrev pub accepts : List Errc → ErrorCode → Bool
  accepts [] ec = true
  accepts (c ∷ cs) ec = match_any b (c ∷ cs) ec

  accepts_lem :
      (cs : List Errc) (ec : ErrorCode)
      → elim cs [ [] ↦ true | d ∷ ds ↦ match_any b (d ∷ ds) ec ] ≡ accepts cs ec
  accepts_lem [] ec = refl
  accepts_lem (d ∷ ds) ec = refl

  pub can_retry-adjust :
      (n : ℤ) (cs : List Errc) (close : Option Bool) (ec : ErrorCode)
      → can_retry b
          (record { tries = adjust_tries_remain n; conditions = cs; close_connection = close })
          ec
        ≡ (ltb 0 (retries n) && accepts cs ec)
  unfolding can_retry adjust_tries_remain
  can_retry-adjust (pos n) cs close ec =
      rw (accepts_lem cs ec) (if_not-false (ltb 0 (n - 1)) (accepts cs ec))
  can_retry-adjust (negsuc n) cs close ec = refl

  -- The next try: there is one when a try is left and a condition accepts the error. It has the same
  -- context, and one try less.
  pub get_next_try-next :
      (t : BasicTry) (ec : ErrorCode) (c : Connection)
      → (get_next_try b t ec c).1 ≡ (
          if ltb 0 (retries t.options.tries) && accepts t.options.conditions ec
          then some (record { ctx = t.ctx; options = next_options t.options })
          else none)
  unfolding get_next_try
  get_next_try-next t ec c =
      let e = can_retry-adjust t.options.tries t.options.conditions t.options.close_connection ec in
      elim (Bool-cases (ltb 0 (retries t.options.tries) && accepts t.options.conditions ec)) [
        | inl h ↦ rw (e, h) refl
        | inr h ↦ rw (e, h) refl
      ]

  -- The connection of a failed try is closed once, unless it is null or the options say not to, whether
  -- there is a next try or not.
  get_next_try-closes :
      (t : BasicTry) (ec : ErrorCode) (c : Connection)
      → count_closed (get_next_try b t ec c).0 ≡ closes (or_true t.options.close_connection) c
  unfolding get_next_try
  get_next_try-closes t ec c =
      let e = close_deferred-closes (or_true t.options.close_connection) c in
      elim (Bool-cases (can_retry b (next_options t.options) ec)) [
        | inl h ↦ rw (h) e
        | inr h ↦ rw (h) e
      ]

  pub get_next_try-counts :
      (t : BasicTry) (ec : ErrorCode) (c : Connection)
      → (count_handled (get_next_try b t ec c).0 ≡ 0)
        × (count_started (get_next_try b t ec c).0 ≡ 0)
  unfolding get_next_try
  get_next_try-counts t ec c =
      let e = close_deferred-counts (or_true t.options.close_connection) c in
      elim (Bool-cases (can_retry b (next_options t.options) ec)) [
        | inl h ↦ rw (h) e
        | inr h ↦ rw (h) e
      ]

  pub get_next_try-falls :
      (t : BasicTry) (ec : ErrorCode) (c : Connection) (t' : BasicTry)
      → (get_next_try b t ec c).1 ≡ some t'
      → retries t'.options.tries < retries t.options.tries
  get_next_try-falls t ec c t' e =
      let e' = sym (get_next_try-next t ec c) ∙ e in
      let (x, y) =
        some_if (ltb 0 (retries t.options.tries) && accepts t.options.conditions ec) _ t' e' in
      rw (sym (ap (λ (u : BasicTry). u.options.tries) y))
        (retries-falls t.options.tries (and_left _ _ x))

  unfoldable pub retry-IsStrategy : IsStrategy (retry_try b)
  retry-IsStrategy = record {
    retries_left = λ t. retries t.options.tries;
    quiet =
        λ t now ec c. start_next-quiet now (get_next_try b t ec c) (get_next_try-counts t ec c).0;
    starts =
        λ t now ec c. start_next-starts now (get_next_try b t ec c) (get_next_try-counts t ec c).1;
    falls = λ t now ec c t' e.
        get_next_try-falls t ec c t' (sym (start_next-next now (get_next_try b t ec c)) ∙ e);
  }

  -- An operation under `retry_strategy` is started no more often than the larger of one and the number of
  -- tries, and its handler is called at most once.
  retry-bounded :
      (options : RetryOptions) (ctx : Context) (now : ℕ) (os : List Outcome)
      → (count_handled (perform (retry_try b) (get_first_try options ctx now) now os) ≤ 1)
        × (count_started (perform (retry_try b) (get_first_try options ctx now) now os)
            ≤ 1 + retries options.tries)
  unfolding get_first_try retry-IsStrategy
  retry-bounded options ctx now os =
      perform-bounded (retry_try b) retry-IsStrategy (get_first_try options ctx now) now os

  -- When the operation has come to an end as often as there are tries, or once if there are none, its handler
  -- has been called exactly once.
  pub retry-handled_once :
      (options : RetryOptions) (ctx : Context) (now : ℕ) (os : List Outcome)
      → retries options.tries < length os
      → count_handled (perform (retry_try b) (get_first_try options ctx now) now os) ≡ 1
  unfolding get_first_try retry-IsStrategy
  retry-handled_once options ctx now os h =
      perform-handled_once (retry_try b) retry-IsStrategy (get_first_try options ctx now) now os h
