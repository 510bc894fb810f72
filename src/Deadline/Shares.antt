-- ===== src/Deadline/Shares.antt =====
-- How the time of an operation is shared out.
use ozo_pg.Base.{ℕ, suc, ◌+◌, ◌*◌, ◌/◌, ◌≤◌, ◌<◌, ◌≡◌, ◌↔◌, refl, true, lt→ltb, arith}
use ozo_pg.Base.Int.{ℤ, pos, negsuc}
use ozo_pg.Deadline.{
  time_point_max, deadline_after, time_left, expired, TimeConstraint, at, within,
  get_try_time_constraint,
}
use native.Mathlib.Nat.{le-div_iff_mul-le}

-- From a time that is a time point, a deadline lies between that time and the last time point, for every
-- duration.
deadline_after_bounds :
    (after : ℤ) (now : ℕ)
    → now ≤ time_point_max
    → (now ≤ deadline_after after now) × (deadline_after after now ≤ time_point_max)
unfolding deadline_after
deadline_after_bounds (negsuc n) now h = omega arith
deadline_after_bounds (pos after) now h = ground arith

-- The time left until a deadline is the duration that was asked for, where the sum is a time point.
time_left-deadline_after :
    (after now : ℕ)
    → now + after ≤ time_point_max
    → time_left (deadline_after (pos after) now) now ≡ after
unfolding deadline_after time_left
time_left-deadline_after after now h = ground arith

-- A deadline is expired from its own time point on.
pub expired_iff : (t now : ℕ) → (expired t now ≡ true) ↔ (t ≤ now)
unfolding expired
expired_iff t now = (λ e. ground arith, λ e. ground arith)

abbrev pub ticks : TimeConstraint → ℕ
ticks (within (pos n)) = n
ticks _ = 0

-- The time that a try gets out of `n` that remain, up to the deadline `t`.
abbrev pub share : ℕ → ℕ → ℕ → ℕ
share t n now = ticks (get_try_time_constraint (at t) (pos n) now)

share_lem : (t n now : ℕ) → 0 < n → share t n now ≡ time_left t now / n
unfolding get_try_time_constraint
share_lem t n now h = rw (lt→ltb 0 n h) refl

time_left_later :
    (t n now now' c : ℕ) → c * suc n ≤ time_left t now → now' ≤ now + c → c * n ≤ time_left t now'
unfolding time_left
time_left_later t n now now' c h k = grind arith

within_left :
    (t n now now' c : ℕ) → c * suc n ≤ time_left t now → now' ≤ now + c → now ≤ t → now' ≤ t
unfolding time_left
within_left t n now now' c h k on_time = grind arith

-- With at least two tries left: a try that begins by the deadline and takes no longer than its
-- share leaves the next one no less than it had itself, and ends by the deadline.
share_grows :
    (t n now now' : ℕ)
    → 0 < n
    → now ≤ t
    → now' ≤ now + share t (suc n) now
    → (share t (suc n) now ≤ share t n now') × (now' ≤ t)
share_grows t n now now' h on_time k =
    let c = time_left t now / suc n in
    let whole : c * suc n ≤ time_left t now =
      (le-div_iff_mul-le {k = suc n} (omega arith)).0 (omega arith) in
    let e = share_lem t (suc n) now (omega arith) in
    let k' : now' ≤ now + c = rw e at k in
    (
      rw (e, share_lem t n now' h)
          ((le-div_iff_mul-le {k = n} h).1 (time_left_later t n now now' c whole k')),
      within_left t n now now' c whole k' on_time,
    )
