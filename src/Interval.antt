-- ===== src/Interval.antt =====
-- ext/std/duration.h: a duration in microseconds and the interval of PostgreSQL.
pub mod Saturation
pub mod Wire
mod Examples
use ozo_pg.Base.{
  ℕ, ◌+◌, ◌-◌, ◌*◌, ◌/◌, ◌%◌, ◌^◌, ◌≡◌, Option, none, some, Bool, true, false, not, ◌&&◌, ◌||◌, ltb,
  if◌then◌else◌,
}
use ozo_pg.Io.Stream.{Istream, Result, ok, err, read_integral, checked}
use ozo_pg.Io.Send.{Ostream, write_integral}
use ozo_pg.Base.Int.{ℤ, pos, negsuc, ◌+ℤ◌, times, quotient, remainder, less}

pub record PgInterval : Type 0 where
  pub microseconds : ℤ
  pub days : ℤ
  pub months : ℤ

-- The microseconds of a day.
abbrev pub day : ℕ
day = 86_400_000_000

-- `microseconds::min()` and `microseconds::max()`
abbrev pub microseconds_min : ℤ
microseconds_min = negsuc 0x7fff_ffff_ffff_ffff

abbrev pub microseconds_max : ℤ
microseconds_max = pos 0x7fff_ffff_ffff_ffff

unfoldable pub from_chrono_duration : ℤ → PgInterval
from_chrono_duration input = record {
  microseconds = remainder input day;
  days = quotient input day;
  months = pos 0;
}

-- A number that 64 bits hold.
abbrev pub fits : ℤ → Bool
fits x = not (less x microseconds_min || less microseconds_max x)

-- Days, in microseconds, and what is added to them; `none` where either number leaves 64 bits.
abbrev pub with_sum : ℤ → ℤ → (ℤ → Option ℤ) → Option ℤ
with_sum days usecs next =
    if fits (times day days) && fits (times day days +ℤ usecs)
    then next (times day days +ℤ usecs)
    else none

-- The first guard, with what comes behind it.
abbrev pub unless_below : ℤ → ℤ → Option ℤ → Option ℤ
unless_below days_total usecs_surplus rest =
    if less days_total (quotient microseconds_min day +ℤ negsuc 0)
    then some microseconds_min
    else (if less days_total (pos 0)
        then with_sum (days_total +ℤ pos 1) usecs_surplus
            (λ sum. if less sum (microseconds_min +ℤ pos day) then some microseconds_min else rest)
        else rest)

-- The second.
abbrev pub unless_above : ℤ → ℤ → Option ℤ → Option ℤ
unless_above days_total usecs_surplus rest =
    if less (quotient microseconds_max day +ℤ pos 1) days_total
    then some microseconds_max
    else (if less (pos 0) days_total
        then with_sum (days_total +ℤ negsuc 0) usecs_surplus (λ sum.
          if less (microseconds_max +ℤ negsuc (day - 1)) sum then some microseconds_max else rest)
        else rest)

-- The sum of whole days and of less than a day.
unfoldable pub saturated : ℤ → ℤ → Option ℤ
saturated days_total usecs_surplus =
    unless_below days_total usecs_surplus
      (unless_above days_total usecs_surplus (with_sum days_total usecs_surplus (λ sum. some sum)))

unfoldable pub to_chrono_duration : PgInterval → Option ℤ
unfolding saturated
to_chrono_duration interval =
    saturated (times 30 interval.months +ℤ interval.days +ℤ quotient interval.microseconds day)
      (remainder interval.microseconds day)

-- A number as its bits in two's complement, and back.
unfoldable pub to_bits : ℕ → ℤ → ℕ
to_bits w (pos n) = n % 2 ^ w
to_bits w (negsuc n) = 2 ^ w - 1 - n % 2 ^ w

unfoldable pub from_bits : ℕ → ℕ → ℤ
from_bits w m = if ltb m (2 ^ (w - 1)) then pos m else negsuc (2 ^ w - 1 - m)

-- `send_impl`: the members of the interval are written in their order.
unfoldable pub write_interval : Ostream → PgInterval → Ostream
unfolding to_bits
write_interval out i =
    write_integral 4
      (write_integral 4 (write_integral 8 out (to_bits 64 i.microseconds)) (to_bits 32 i.days))
      (to_bits 32 i.months)

unfoldable pub send_microseconds : Ostream → ℤ → Ostream
unfolding write_interval from_chrono_duration
send_microseconds out input = write_interval out (from_chrono_duration input)

-- `recv_impl`
unfoldable pub read_interval : Istream → PgInterval × Istream
unfolding from_bits
read_interval s =
    let (microseconds, s₁) = read_integral 8 s in
    let (days, s₂) = read_integral 4 s₁ in
    let (months, s₃) = read_integral 4 s₂ in
    (
      record {
        microseconds = from_bits 64 microseconds;
        days = from_bits 32 days;
        months = from_bits 32 months;
      },
      s₃,
    )

-- `none` is for a duration that is undefined.
unfoldable pub convert : Result (PgInterval × Istream) → Result (Option ℤ × Istream)
unfolding to_chrono_duration
convert (err e) = err e
convert (ok (interval, s)) = ok (to_chrono_duration interval, s)

unfoldable pub recv_microseconds : Istream → Result (Option ℤ × Istream)
unfolding read_interval convert
recv_microseconds s = convert (checked (read_interval s))
