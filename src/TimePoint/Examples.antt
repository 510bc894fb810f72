-- ===== src/TimePoint/Examples.antt =====
-- A time point before the epoch, and a timestamp of the year 3000.
use ozo_pg.Base.{◌≡◌, refl, List, [], ◌∷◌, ◌++◌, none, some, if◌then◌else◌, arith, ℕ}
use ozo_pg.Base.Int.{ℤ, pos, negsuc, ◌+ℤ◌, minus, times, remainder}
use ozo_pg.Io.Endian.{big_endian}
use ozo_pg.Io.Stream.{stream, ok}
use ozo_pg.Interval.{to_bits}
use ozo_pg.TimePoint.{epoch, from_epoch, send_time_point, recv_time_point}
use ozo_pg.TimePoint.Wire.{is_representable, recv_time_point-send, recv_time_point-representable}

-- A tick and a half microsecond before 1970.
abbrev before_unix : ℤ
before_unix = negsuc 1500

recv_time_point-send_example :
    (bytes : List ℕ) × (t' : ℤ) × (send_time_point [] before_unix ≡ some bytes)
    × (recv_time_point (stream (bytes ++ (7 ∷ []))) ≡ ok (some t', stream (7 ∷ [])))
    × (t' +ℤ remainder (before_unix +ℤ minus epoch) 1000 ≡ before_unix)
recv_time_point-send_example = recv_time_point-send before_unix (7 ∷ []) (omega arith) (omega arith)

abbrev year_3000 : ℤ
year_3000 = pos 31_556_908_800_000_000

too_late : from_epoch year_3000 ≡ none
unfolding from_epoch
too_late = refl

recv_time_point-representable_example :
    recv_time_point (stream (big_endian 8 (to_bits 64 year_3000) ++ []))
    ≡ ok (
      (if is_representable year_3000 then some (pos epoch +ℤ times 1000 year_3000) else none),
      stream [],
    )
recv_time_point-representable_example = recv_time_point-representable year_3000 [] (omega arith)
