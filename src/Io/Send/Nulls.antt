-- ===== src/Io/Send/Nulls.antt =====
-- `data_size` of io/array.h on an array of optional integers in which some elements are null.
use ozo_pg.Base.{
  ℕ, ◌+◌, ◌-◌, ◌*◌, ◌%◌, ◌^◌, ◌≤◌, ◌<◌, ◌∙◌, ◌≡◌, ◌≢◌, refl, List, [], ◌∷◌, ◌++◌, Option, none,
  some, true, length, length-append, lt→ltb, arith,
}
use ozo_pg.Io.Endian.{big_endian, length-big_endian}
use ozo_pg.Io.SizeOf.{
  size_of, size_of_impl, null_state_size, data_frame_size, array_data_size, to_size_t,
}
use ozo_pg.Io.Send.Wire.{wire, array_header, data_frame, data_frames}
use ozo_pg.Io.Send.Frames.{small_size}
use ozo_pg.Io.Send.Correct.{length-array_header}
use ozo_pg.Io.Types.{nullable, TypeOid, Container, OidMap, integral, array, type_oid}

abbrev pub nulls : List (Option ℕ) → ℕ
nulls [] = 0
nulls (none ∷ vs) = 1 + nulls vs
nulls (some v ∷ vs) = nulls vs

length-data_frames-nulls :
    (w : ℕ) (vs : List (Option ℕ))
    → length (data_frames nullable (big_endian w) vs) + w * nulls vs ≡ (4 + w) * length vs
unfolding data_frames data_frame
length-data_frames-nulls w [] = omega arith
length-data_frames-nulls w (none ∷ vs) = omega (
  arith,
  length-append (big_endian 4 null_state_size) (data_frames nullable (big_endian w) vs),
  length-big_endian 4 null_state_size,
  length-data_frames-nulls w vs,
)
length-data_frames-nulls w (some v ∷ vs) = omega (
  arith,
  length-append (big_endian 4 (length (big_endian w v)) ++ big_endian w v)
      (data_frames nullable (big_endian w) vs),
  length-append (big_endian 4 (length (big_endian w v))) (big_endian w v),
  length-big_endian 4 (length (big_endian w v)),
  length-big_endian w v,
  length-data_frames-nulls w vs,
)

product_bounds : (w n : ℕ) → 0 < w → w ≤ 8 → (n ≤ w * n) × (w * n ≤ 8 * n)
product_bounds w n hw hw' = (grind arith, grind arith)

product_rest : (w n k : ℕ) → k < n → w * n ≡ w * k + w * (n - k)
product_rest w n k h = grind arith

-- `x` is the bytes that the elements which are null would have, and `z` those of the others.
wrapped_some :
    (n k x z : ℕ)
    → 0 < k
    → k < n
    → n < 2 ^ 31
    → (k ≤ x) × (x ≤ 8 * k)
    → (20 + to_size_t ((4 * n + x + z) % 2 ^ 32)) % 2 ^ 64 ≡ 20 + (4 * n + z)
    → z ≤ 8 * (n - k)
    → ⊥
wrapped_some n k x z hk few small bx e bz = ground (arith, bx, e, bz)

wrapped_none :
    (n z : ℕ)
    → n < 2 ^ 31
    → 0 < z
    → z ≤ 8 * n
    → (20 + to_size_t ((4 * n) % 2 ^ 32)) % 2 ^ 64 ≡ 20 + (4 * n + z)
    → ⊥
wrapped_none n z small hz bz e = ground (arith, bz, e)

frame_of_width : (w : ℕ) → w < 2 ^ 31 → data_frame_size (w % 2 ^ 32) ≡ 4 + w
unfolding data_frame_size
frame_of_width w h = rw (small_size w h, lt→ltb _ _ h) refl

null_frame : data_frame_size null_state_size ≡ 4
unfolding data_frame_size
null_frame = refl

-- The size of the array, and the number of bytes behind its header.
mixed_size :
    (w : ℕ) (vs : List (Option ℕ))
    → 0 < w
    → w ≤ 8
    → 0 < nulls vs
    → nulls vs < length vs
    → length vs < 2 ^ 31
    → (20 + to_size_t (array_data_size true (size_of nullable (λ (v : ℕ). w)) vs)) % 2 ^ 64
      ≢ 20 + length (data_frames nullable (big_endian w) vs)
unfolding array_data_size size_of
mixed_size w [] hw hs hn hm few e = absurd (omega arith)
mixed_size w (none ∷ vs) hw hs hn hm few e =
    let all = none ∷ vs in
    let n = length all in
    let k = nulls all in
    let rest = w * (n - k) in
    let bounds = product_bounds w (n - k) hw hs in
    let bytes : length (data_frames nullable (big_endian w) all) ≡ 4 * n + rest =
      omega (arith, length-data_frames-nulls w all, product_rest w n k hm) in
    wrapped_none n rest few (omega (arith, bounds.0, hm)) (omega (arith, bounds.1, hm))
      (rw (null_frame, bytes) at e)
mixed_size w (some v ∷ vs) hw hs hn hm few e =
    let all = some v ∷ vs in
    let n = length all in
    let k = nulls all in
    let rest = w * (n - k) in
    let bytes : length (data_frames nullable (big_endian w) all) ≡ 4 * n + rest =
      omega (arith, length-data_frames-nulls w all, product_rest w n k hm) in
    let product : (4 + w) * n ≡ 4 * n + w * k + rest = omega (arith, product_rest w n k hm) in
    wrapped_some n k (w * k) rest hn hm few (product_bounds w k hw hs)
      (rw (frame_of_width w (omega (arith, hs)), product, bytes) at e)
      (product_bounds w (n - k) hw hs).1

-- In an array of optional integers, of a width from 1 to 8 bytes, of fewer than 2^31 elements, one of which
-- is null and another is not, the size that `size_of` computes is not the number of bytes that are sent.
pub size_of_impl-ne-wire :
    (oids : OidMap) (o o' : TypeOid) (c : Container) (w : ℕ) (vs : List (Option ℕ))
    → 0 < w
    → w ≤ 8
    → 0 < nulls vs
    → nulls vs < length vs
    → length vs < 2 ^ 31
    → size_of_impl (array o c nullable (integral o' w)) vs
      ≢ length (wire oids (array o c nullable (integral o' w)) vs)
unfolding size_of_impl wire
size_of_impl-ne-wire oids o o' c w vs hw hs hn hm few e = mixed_size w vs hw hs hn hm few (
    e
    ∙ omega (
      arith,
      length-append (array_header (type_oid oids (integral o' w)) (length vs))
          (data_frames nullable (big_endian w) vs),
      length-array_header (type_oid oids (integral o' w)) (length vs),
    ))
