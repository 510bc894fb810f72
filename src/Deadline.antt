-- ===== src/Deadline.antt =====
-- deadline.h, and `get_try_time_constraint` of failover/retry.h. A time point is the number of ticks of
-- the steady clock since its epoch, which is past, and a duration is a number of ticks.
pub mod Shares
pub mod Handler
mod Examples
use ozo_pg.Base.{ℕ, ◌+◌, ◌-◌, ◌/◌, Bool, true, false, ltb, leb, ◌==◌, if◌then◌else◌}
use ozo_pg.Base.Int.{ℤ, pos, negsuc}

-- `time_point::max()`: ticks are 64-bit signed numbers.
abbrev pub time_point_max : ℕ
time_point_max = 0x7fff_ffff_ffff_ffff

-- `deadline(after, now)`.
unfoldable pub deadline_after : ℤ → ℕ → ℕ
deadline_after (negsuc n) now = now
deadline_after (pos after) now =
    if ltb (time_point_max - now) after then time_point_max else now + after

unfoldable pub time_left : ℕ → ℕ → ℕ
time_left t now = if ltb now t then t - now else 0

unfoldable pub expired : ℕ → ℕ → Bool
unfolding time_left
expired t now = time_left t now == 0

-- A #TimeConstraint of an operation.
pub data TimeConstraint : Type 0 where
  none : TimeConstraint
  at : ℕ → TimeConstraint
  within : ℤ → TimeConstraint

-- `deadline` on each of them.
unfoldable pub deadline : TimeConstraint → ℕ → TimeConstraint
deadline none now = none
deadline (at t) now = at t
deadline (within after) now = at (deadline_after after now)

-- Division of `rep`, which truncates towards zero.
abbrev divide : ℤ → ℕ → ℤ
divide (pos t) n = pos (t / n)
divide (negsuc t) n = if (t + 1) / n == 0 then pos 0 else negsuc ((t + 1) / n - 1)

-- The number of tries may be negative, since a caller may set any number.
unfoldable pub get_try_time_constraint : TimeConstraint → ℤ → ℕ → TimeConstraint
unfolding time_left
get_try_time_constraint none n now = none
get_try_time_constraint (at t) (negsuc n) now = within (pos 0)
get_try_time_constraint (at t) (pos n) now =
    within (pos (if ltb 0 n then time_left t now / n else 0))
get_try_time_constraint (within t) (negsuc n) now = within (pos 0)
get_try_time_constraint (within t) (pos n) now = within (if ltb 0 n then divide t n else pos 0)
