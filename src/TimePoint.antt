-- ===== src/TimePoint.antt =====
-- ext/std/time_point.h, detail/epoch.h: time points of the system clock, whose ticks are taken to be
-- nanoseconds of 64 bits, and timestamps.
pub mod Wire
mod Examples
use ozo_pg.Base.{ℕ, ◌+◌, ◌*◌, Option, none, some, Bool, not, ◌||◌, if◌then◌else◌}
use ozo_pg.Base.Int.{ℤ, pos, negsuc, ◌+ℤ◌, minus, times, quotient, less}
use ozo_pg.Interval.{to_bits, from_bits}
use ozo_pg.Io.Stream.{Istream, Result, ok, err, read_integral, checked}
use ozo_pg.Io.Send.{Ostream, write_integral}

-- `hours{ 24 } * 10957`, in ticks.
abbrev pub epoch : ℕ
epoch = 24 * 10957 * 3_600_000_000_000

-- A sum or a product of 64 bits: one that leaves them is undefined.
unfoldable pub int64 : ℤ → Option ℤ
int64 x =
    if less x (negsuc 0x7fff_ffff_ffff_ffff) || less (pos 0x7fff_ffff_ffff_ffff) x
    then none
    else some x

abbrev pub cast_microseconds : Option ℤ → Option ℤ
cast_microseconds none = none
cast_microseconds (some ticks) = some (quotient ticks 1000)

-- `duration_cast<microseconds>(in - epoch).count()`
unfoldable pub since_epoch : ℤ → Option ℤ
unfolding int64
since_epoch t = cast_microseconds (int64 (t +ℤ minus epoch))

abbrev pub plus_epoch : Option ℤ → Option ℤ
plus_epoch none = none
plus_epoch (some ticks) = int64 (pos epoch +ℤ ticks)

-- `epoch + microseconds{ value }`: the microseconds become ticks first.
unfoldable pub from_epoch : ℤ → Option ℤ
unfolding int64
from_epoch value = plus_epoch (int64 (times 1000 value))

abbrev pub write_count : Ostream → Option ℤ → Option Ostream
write_count out none = none
write_count out (some value) = some (write_integral 8 out (to_bits 64 value))

-- `send_impl`
unfoldable pub send_time_point : Ostream → ℤ → Option Ostream
unfolding since_epoch to_bits
send_time_point out t = write_count out (since_epoch t)

abbrev pub to_time_point : ℕ × Istream → Option ℤ × Istream
to_time_point (value, s) = (from_epoch (from_bits 64 value), s)

abbrev pub received : Result (ℕ × Istream) → Result (Option ℤ × Istream)
received (err e) = err e
received (ok r) = ok (to_time_point r)

-- `recv_impl`, which does not look at the size.
unfoldable pub recv_time_point : Istream → Result (Option ℤ × Istream)
unfolding from_epoch from_bits
recv_time_point s = received (checked (read_integral 8 s))
