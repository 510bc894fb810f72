-- ===== src/TimePoint/Wire.antt =====
-- ext/std/time_point.h: a time point that is sent and received.
use ozo_pg.Base.{
  ℕ, ◌≡◌, sym, ap, ◌∙◌, List, [], ◌++◌, none, some, arith, Bool, not, ◌&&◌, if◌then◌else◌,
}
use ozo_pg.Base.Int.{ℤ, pos, negsuc, ◌+ℤ◌, minus, times, quotient, remainder, less}
use ozo_pg.Io.Endian.{big_endian}
use ozo_pg.Io.Stream.{Istream, stream, ok, checked}
use ozo_pg.Io.Send.Frames.{write_integral-big_endian}
use ozo_pg.Io.Recv.Frames.{read_integral-big_endian}
use ozo_pg.Interval.Wire.{from_bits-64, to_bits-64-lt}
use ozo_pg.Interval.{to_bits}
use ozo_pg.Interval.Saturation.{IsInt64}
use ozo_pg.TimePoint.{
  received, epoch, cast_microseconds, write_count, plus_epoch, int64, since_epoch, from_epoch,
  send_time_point, recv_time_point,
}

int64-fits : (x : ℤ) → IsInt64 x → int64 x ≡ some x
unfolding int64
int64-fits (pos n) h = ground arith
int64-fits (negsuc n) h = ground arith

-- The time point as it comes back: the ticks that are no whole microsecond are lost, towards the epoch.
abbrev whole : ℤ → ℤ
whole t = pos epoch +ℤ times 1000 (quotient (t +ℤ minus epoch) 1000)

+ℤ_assoc : (e : ℕ) (a b : ℤ) → pos e +ℤ (a +ℤ b) ≡ (pos e +ℤ a) +ℤ b
+ℤ_assoc e (pos a) (pos b) = ground arith
+ℤ_assoc e (pos a) (negsuc b) = ground arith
+ℤ_assoc e (negsuc a) (pos b) = ground arith
+ℤ_assoc e (negsuc a) (negsuc b) = ground arith

division : (x : ℤ) → times 1000 (quotient x 1000) +ℤ remainder x 1000 ≡ x
division (pos n) = ground arith
division (negsuc n) = ground arith

back : (t : ℤ) → pos epoch +ℤ (t +ℤ minus epoch) ≡ t
back (pos n) = ground arith
back (negsuc n) = ground arith

whole_rest : (t : ℤ) → whole t +ℤ remainder (t +ℤ minus epoch) 1000 ≡ t
whole_rest t =
    let d = t +ℤ minus epoch in
    sym (+ℤ_assoc epoch (times 1000 (quotient d 1000)) (remainder d 1000))
    ∙ ap (λ x. pos epoch +ℤ x) (division d)
    ∙ back t

microseconds-IsInt64 : (x : ℤ) → IsInt64 x → IsInt64 (times 1000 (quotient x 1000))
microseconds-IsInt64 (pos n) h = ground arith
microseconds-IsInt64 (negsuc n) h = ground arith

whole-IsInt64 : (t : ℤ) → IsInt64 t → IsInt64 (whole t)
whole-IsInt64 (pos n) h = ground arith
whole-IsInt64 (negsuc n) h = ground arith

from-since :
    (t : ℤ)
    → IsInt64 t
    → IsInt64 (t +ℤ minus epoch)
    → from_epoch (quotient (t +ℤ minus epoch) 1000) ≡ some (whole t)
unfolding from_epoch
from-since t h k =
    let d = t +ℤ minus epoch in
    ap plus_epoch (int64-fits (times 1000 (quotient d 1000)) (microseconds-IsInt64 d k))
    ∙ int64-fits (whole t) (whole-IsInt64 t h)

since_epoch-some :
    (t : ℤ) → IsInt64 (t +ℤ minus epoch) → since_epoch t ≡ some (quotient (t +ℤ minus epoch) 1000)
unfolding since_epoch
since_epoch-some t k = ap cast_microseconds (int64-fits (t +ℤ minus epoch) k)

quotient-IsInt64 : (x : ℤ) → IsInt64 x → IsInt64 (quotient x 1000)
quotient-IsInt64 (pos n) h = ground arith
quotient-IsInt64 (negsuc n) h = ground arith

-- The eight bytes of a number are received as the time point that it makes.
recv_time_point-bytes :
    (v : ℤ) (rest : List ℕ)
    → IsInt64 v
    → recv_time_point (stream (big_endian 8 (to_bits 64 v) ++ rest))
      ≡ ok (from_epoch v, stream rest)
unfolding recv_time_point
recv_time_point-bytes v rest h =
    ap (λ (r : ℕ × Istream). received (checked r))
      (read_integral-big_endian 8 (to_bits 64 v) rest (to_bits-64-lt v))
    ∙ ap (λ x. ok (from_epoch x, stream rest)) (from_bits-64 v h)

-- A time point whose distance from the epoch has 64 bits is sent, and received as the time point without
-- what it is off a whole microsecond, counted from the epoch; what follows is left over.
pub recv_time_point-send :
    (t : ℤ) (rest : List ℕ)
    → IsInt64 t
    → IsInt64 (t +ℤ minus epoch)
    → (bytes : List ℕ) × (t' : ℤ) × (send_time_point [] t ≡ some bytes)
      × (recv_time_point (stream (bytes ++ rest)) ≡ ok (some t', stream rest))
      × (t' +ℤ remainder (t +ℤ minus epoch) 1000 ≡ t)
unfolding send_time_point
recv_time_point-send t rest h k =
    let v = quotient (t +ℤ minus epoch) 1000 in
    (
      big_endian 8 (to_bits 64 v),
      whole t,
      ap (write_count []) (since_epoch-some t k)
          ∙ ap some (write_integral-big_endian 8 [] (to_bits 64 v)),
      recv_time_point-bytes v rest (quotient-IsInt64 _ k)
          ∙ ap (λ x. ok (x, stream rest)) (from-since t h k),
      whole_rest t,
    )

-- From September 1707 to April 2262, in microseconds before or after 2000.
abbrev pub is_representable : ℤ → Bool
is_representable v =
    not (less v (negsuc 9_223_372_036_854_774)) && not (less (pos 8_276_687_236_854_775) v)

from_epoch-representable :
    (v : ℤ) → from_epoch v ≡ (if is_representable v then some (pos epoch +ℤ times 1000 v) else none)
unfolding from_epoch int64
from_epoch-representable (pos n) = ground arith
from_epoch-representable (negsuc n) = ground arith

-- A timestamp of any 64 bits is received as the time point so many microseconds from the epoch if it is no
-- less than -9223372036854775 and no more than 8276687236854775; otherwise there is a sum or a product that
-- leaves 64 bits.
pub recv_time_point-representable :
    (v : ℤ) (rest : List ℕ)
    → IsInt64 v
    → recv_time_point (stream (big_endian 8 (to_bits 64 v) ++ rest))
      ≡ ok ((if is_representable v then some (pos epoch +ℤ times 1000 v) else none), stream rest)
recv_time_point-representable v rest h =
    recv_time_point-bytes v rest h ∙ ap (λ x. ok (x, stream rest)) (from_epoch-representable v)
