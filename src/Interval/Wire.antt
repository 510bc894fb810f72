-- ===== src/Interval/Wire.antt =====
-- ext/std/duration.h: a duration that is sent and received.
use mathlib.Core.List.{append_assoc}
use ozo_pg.Base.{
  some, ℕ, suc, ◌/◌, ◌%◌, ◌^◌, ◌<◌, ◌≡◌, ap, ◌∙◌, List, [], ◌++◌, arith, Bool-cases, inl, inr, ◌==◌,
}
use ozo_pg.Base.Int.{ℤ, pos, negsuc, quotient, remainder, minus}
use ozo_pg.Io.Endian.{big_endian}
use ozo_pg.Io.Stream.{Istream, stream, ok, read_integral, checked}
use ozo_pg.Io.Send.{Ostream, write_integral}
use ozo_pg.Io.Send.Frames.{write_integral-big_endian}
use ozo_pg.Io.Recv.Frames.{read_integral-big_endian}
use ozo_pg.Interval.{
  PgInterval, day, from_chrono_duration, to_bits, from_bits, write_interval, send_microseconds,
  read_interval, convert, recv_microseconds,
}
use ozo_pg.Interval.Saturation.{IsInt64, to_chrono_duration-from}

IsInt32 : ℤ → Type 0
IsInt32 (pos n) = n < 2 ^ 31
IsInt32 (negsuc n) = n < 2 ^ 31

pub from_bits-64 : (x : ℤ) → IsInt64 x → from_bits 64 (to_bits 64 x) ≡ x
unfolding from_bits to_bits
from_bits-64 (pos n) h = ground arith
from_bits-64 (negsuc n) h = ground arith

from_bits-32 : (x : ℤ) → IsInt32 x → from_bits 32 (to_bits 32 x) ≡ x
unfolding from_bits to_bits IsInt32
from_bits-32 (pos n) h = ground arith
from_bits-32 (negsuc n) h = ground arith

pub to_bits-64-lt : (x : ℤ) → to_bits 64 x < 256 ^ 8
unfolding to_bits
to_bits-64-lt (pos n) = omega arith
to_bits-64-lt (negsuc n) = omega arith

to_bits-32-lt : (x : ℤ) → to_bits 32 x < 256 ^ 4
unfolding to_bits
to_bits-32-lt (pos n) = omega arith
to_bits-32-lt (negsuc n) = omega arith

minus-IsInt64 : (n : ℕ) → n < 2 ^ 63 → IsInt64 (minus n)
minus-IsInt64 n h = elim (Bool-cases (n == 0)) [
  | inl z ↦ rw z (omega arith)
  | inr z ↦ rw z (omega (arith, h))
]

minus-IsInt32 : (n : ℕ) → n < 2 ^ 31 → IsInt32 (minus n)
unfolding IsInt32
minus-IsInt32 n h = elim (Bool-cases (n == 0)) [
  | inl z ↦ rw z (omega arith)
  | inr z ↦ rw z (omega (arith, h))
]

remainder-IsInt64 : (x : ℤ) → IsInt64 (remainder x day)
remainder-IsInt64 (pos n) = omega arith
remainder-IsInt64 (negsuc n) = minus-IsInt64 (suc n % day) (omega arith)

quotient-IsInt32 : (x : ℤ) → IsInt64 x → IsInt32 (quotient x day)
unfolding IsInt32
quotient-IsInt32 (pos n) h = omega (arith, h)
quotient-IsInt32 (negsuc n) h = minus-IsInt32 (suc n / day) (omega (arith, h))

abbrev bytes_of : PgInterval → List ℕ
bytes_of i =
    big_endian 8 (to_bits 64 i.microseconds)
    ++ (big_endian 4 (to_bits 32 i.days) ++ big_endian 4 (to_bits 32 i.months))

write_interval-bytes : (out : Ostream) (i : PgInterval) → write_interval out i ≡ out ++ bytes_of i
unfolding write_interval
write_interval-bytes out i =
    let u = to_bits 64 i.microseconds in
    let d = to_bits 32 i.days in
    let m = to_bits 32 i.months in
    let a = out ++ big_endian 8 u in
    ap (λ o. write_integral 4 (write_integral 4 o d) m) (write_integral-big_endian 8 out u)
    ∙ ap (λ o. write_integral 4 o m) (write_integral-big_endian 4 a d)
    ∙ write_integral-big_endian 4 (a ++ big_endian 4 d) m
    ∙ append_assoc a (big_endian 4 d) (big_endian 4 m)
    ∙ append_assoc out (big_endian 8 u) (big_endian 4 d ++ big_endian 4 m)

-- The reads of the members, each on what the one before it has left.
abbrev behind_days : ℕ → ℕ → ℕ × Istream → PgInterval × Istream
behind_days u d (m, s) =
    (record { microseconds = from_bits 64 u; days = from_bits 32 d; months = from_bits 32 m }, s)

abbrev behind_microseconds : ℕ → ℕ × Istream → PgInterval × Istream
behind_microseconds u (d, s) = behind_days u d (read_integral 4 s)

abbrev behind_start : ℕ × Istream → PgInterval × Istream
behind_start (u, s) = behind_microseconds u (read_integral 4 s)

read_interval-bytes :
    (i : PgInterval) (rest : List ℕ)
    → IsInt64 i.microseconds
    → IsInt32 i.days
    → IsInt32 i.months
    → read_interval (stream (bytes_of i ++ rest)) ≡ (i, stream rest)
unfolding read_interval
read_interval-bytes i rest hu hd hm =
    let u = to_bits 64 i.microseconds in
    let d = to_bits 32 i.days in
    let m = to_bits 32 i.months in
    let after_days = big_endian 4 m ++ rest in
    ap (λ bs. behind_start (read_integral 8 (stream bs)))
      (append_assoc (big_endian 8 u) (big_endian 4 d ++ big_endian 4 m) rest
        ∙ ap (λ bs. big_endian 8 u ++ bs) (append_assoc (big_endian 4 d) (big_endian 4 m) rest))
    ∙ ap behind_start
        (read_integral-big_endian 8 u (big_endian 4 d ++ after_days) (to_bits-64-lt i.microseconds))
    ∙ ap (behind_microseconds u) (read_integral-big_endian 4 d after_days (to_bits-32-lt i.days))
    ∙ ap (behind_days u d) (read_integral-big_endian 4 m rest (to_bits-32-lt i.months))
    ∙ ap
        (λ x. (
          record { microseconds = x; days = from_bits 32 d; months = from_bits 32 m },
          stream rest,
        ))
        (from_bits-64 i.microseconds hu)
    ∙ ap
        (λ x. (
          record { microseconds = i.microseconds; days = x; months = from_bits 32 m },
          stream rest,
        ))
        (from_bits-32 i.days hd)
    ∙ ap (λ x. (record { microseconds = i.microseconds; days = i.days; months = x }, stream rest))
        (from_bits-32 i.months hm)

-- A duration of microseconds, of 64 bits, that is sent is received as it was, and what follows is left over.
pub recv_microseconds-send :
    (x : ℤ) (rest : List ℕ)
    → IsInt64 x
    → recv_microseconds (stream (send_microseconds [] x ++ rest)) ≡ ok (some x, stream rest)
unfolding recv_microseconds send_microseconds from_chrono_duration convert
recv_microseconds-send x rest h =
    let i = from_chrono_duration x in
    ap (λ bs. convert (checked (read_interval (stream (bs ++ rest))))) (write_interval-bytes [] i)
    ∙ ap (λ (r : PgInterval × Istream). convert (checked r))
        (read_interval-bytes i rest (remainder-IsInt64 x) (quotient-IsInt32 x h)
          (unfold IsInt32 in omega arith))
    ∙ ap (λ y. ok (y, stream rest)) (to_chrono_duration-from x h)
