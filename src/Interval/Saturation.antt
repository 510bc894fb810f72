-- ===== src/Interval/Saturation.antt =====
-- ext/std/duration.h: durations that go to an interval and back, and the bounds of a duration.
use ozo_pg.Base.{
  ◌-◌, Option, none, some, Bool, ◌&&◌, ◌||◌, not, suc, ◌%◌, ◌≤◌, ◌<◌, ◌≡◌, if◌then◌else◌, arith, ap,
  ◌∙◌, Bool-cases, inl, inr, ◌==◌,
}
use ozo_pg.Base.Int.{ℤ, pos, negsuc, ◌+ℤ◌, times, quotient, remainder, less}
use ozo_pg.Interval.{
  PgInterval, day, microseconds_min, microseconds_max, from_chrono_duration, saturated,
  to_chrono_duration,
}

-- A number of 64 bits.
abbrev pub IsInt64 : ℤ → Type 0
IsInt64 (pos n) = n ≤ 0x7fff_ffff_ffff_ffff
IsInt64 (negsuc n) = n ≤ 0x7fff_ffff_ffff_ffff

-- A duration of microseconds, of 64 bits, that is made an interval comes back as it was.
pub to_chrono_duration-from :
    (x : ℤ) → IsInt64 x → to_chrono_duration (from_chrono_duration x) ≡ some x
unfolding to_chrono_duration from_chrono_duration saturated
to_chrono_duration-from (pos n) h = ground arith
to_chrono_duration-from (negsuc n) h = ground arith

-- The nearest number of 64 bits.
abbrev pub clamp : ℤ → ℤ
clamp x =
    if less x microseconds_min
    then microseconds_min
    else (if less microseconds_max x then microseconds_max else x)

abbrev IsBelowDay : ℤ → Type 0
IsBelowDay (pos n) = n < day
IsBelowDay (negsuc n) = suc n < day

-- Where a sum of the code leaves 64 bits: at the day next to the last that 64 bits hold, on either side, where
-- the whole fits all the same, or is beyond 64 bits by more than a day.
abbrev pub leaves : ℤ → ℤ → Bool
leaves (pos d) whole =
    d == 106_751_992
    && (less (microseconds_max +ℤ pos day) whole || not (less microseconds_max whole))
leaves (negsuc d) whole =
    d == 106_751_991
    && (less whole (microseconds_min +ℤ negsuc (day - 1)) || not (less whole microseconds_min))

abbrev pub clamp_unless : Bool → ℤ → Option ℤ
clamp_unless b x = if b then none else some (clamp x)

saturated-clamp :
    (d s : ℤ)
    → IsBelowDay s
    → saturated d s ≡ clamp_unless (leaves d (times day d +ℤ s)) (times day d +ℤ s)
unfolding saturated
saturated-clamp (pos d) (pos s) h = ground arith
saturated-clamp (pos d) (negsuc s) h = ground arith
saturated-clamp (negsuc d) (pos s) h = ground arith
saturated-clamp (negsuc d) (negsuc s) h = ground arith

remainder-IsBelowDay : (x : ℤ) → IsBelowDay (remainder x day)
remainder-IsBelowDay (pos n) = omega arith
remainder-IsBelowDay (negsuc n) = elim (Bool-cases (suc n % day == 0)) [
  | inl z ↦ rw z (omega arith)
  | inr z ↦ rw z (omega arith)
]

whole_days : (d x : ℤ) → times day (d +ℤ quotient x day) +ℤ remainder x day ≡ times day d +ℤ x
whole_days (pos d) (pos x) = ground arith
whole_days (pos d) (negsuc x) = ground arith
whole_days (negsuc d) (pos x) = ground arith
whole_days (negsuc d) (negsuc x) = ground arith

-- The microseconds of an interval, a month being 30 days.
abbrev pub microseconds_of : PgInterval → ℤ
microseconds_of i = times day (times 30 i.months +ℤ i.days) +ℤ i.microseconds

-- The days of an interval, a month being 30 days and what is over a day counted as days.
abbrev pub days_of : PgInterval → ℤ
days_of i = times 30 i.months +ℤ i.days +ℤ quotient i.microseconds day

-- The duration that an interval is made is the number of its microseconds, a month being 30 days, or, where
-- that number does not fit into 64 bits, the nearest one that does; but where the days of the interval are
-- 106751992 or as many below 0, and the number of its microseconds fits into 64 bits or is more than a day
-- beyond them, a sum or a product overflows, and the duration is undefined.
pub to_chrono_duration-clamp :
    (i : PgInterval)
    → to_chrono_duration i
      ≡ clamp_unless (leaves (days_of i) (microseconds_of i)) (microseconds_of i)
unfolding to_chrono_duration
to_chrono_duration-clamp i =
    saturated-clamp (days_of i) (remainder i.microseconds day) (remainder-IsBelowDay i.microseconds)
    ∙ ap (λ x. clamp_unless (leaves (days_of i) x) x)
        (whole_days (times 30 i.months +ℤ i.days) i.microseconds)
