-- ===== src/Interval/Examples.antt =====
-- Durations below, in and above the range of 64 bits.
use ozo_pg.Base.{some, none, ◌≡◌, refl, [], ◌∷◌, ◌++◌, arith}
use ozo_pg.Base.Int.{pos, negsuc}
use ozo_pg.Io.Stream.{stream, ok}
use ozo_pg.Interval.{
  PgInterval, microseconds_max, to_chrono_duration, send_microseconds, recv_microseconds,
}
use ozo_pg.Interval.Saturation.{
  clamp_unless, leaves, days_of, microseconds_of, to_chrono_duration-clamp,
}
use ozo_pg.Interval.Wire.{recv_microseconds-send}

-- A day and a second before the epoch.
recv_microseconds-send_example :
    recv_microseconds (stream (send_microseconds [] (negsuc 86400999999) ++ (7 ∷ [])))
    ≡ ok (some (negsuc 86400999999), stream (7 ∷ []))
recv_microseconds-send_example = recv_microseconds-send (negsuc 86400999999) (7 ∷ []) (omega arith)

abbrev long : PgInterval
long = record { microseconds = negsuc 0; days = pos 0; months = pos 2_000_000_000 }

longest : to_chrono_duration long ≡ some microseconds_max
unfolding to_chrono_duration
longest = refl

-- A day less a microsecond before 106751992 days before the start: the least duration is meant.
abbrev early : PgInterval
early = record { microseconds = negsuc 86399999998; days = negsuc 106751991; months = pos 0 }

early_undefined : to_chrono_duration early ≡ none
unfolding to_chrono_duration
early_undefined = refl

to_chrono_duration-clamp_example :
    to_chrono_duration early
    ≡ clamp_unless (leaves (days_of early) (microseconds_of early)) (microseconds_of early)
to_chrono_duration-clamp_example = to_chrono_duration-clamp early
