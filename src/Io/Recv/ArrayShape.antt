-- ===== src/Io/Recv/ArrayShape.antt =====
-- How a receiver of an array treats an array of another number of elements.
use mathlib.Core.List.{append_assoc}
use ozo_pg.Base.{
  ℕ, ◌^◌, ◌<◌, ◌≡◌, ◌≢◌, refl, List, [], ◌++◌, length, ==_refl, ==-false_of_ne, arith,
}
use ozo_pg.Io.Endian.{big_endian}
use ozo_pg.Io.Stream.{stream, ok, err, oid_type_mismatch, bad_array_size}
use ozo_pg.Io.Send.Wire.{wire, data_frames, array_header}
use ozo_pg.Io.Recv.{recv_impl, recv_array, recv_elements, fit_array_size}
use ozo_pg.Io.Recv.Arrays.{header_split, read_array_header_lem, read_dimension_lem}
use ozo_pg.Io.Types.{Presence, Slot, TypeOid, Container, fixed, OidMap, PgType, array, El, type_oid}

-- For an element type whose object identifier is below 2^32: an array that was sent with no
-- elements is received as whatever the object holds already, so that elements of an earlier row
-- stay in it.
recv_impl-empty_array :
    (oids : OidMap) (o : TypeOid) (c : Container) (p : Presence) (t : PgType) (size : ℕ)
    (out : List (Slot p (El t))) (rest : List ℕ)
    → type_oid oids t < 2 ^ 32
    → recv_impl oids (array o c p t) size out (stream (wire oids (array o c p t) [] ++ rest))
      ≡ ok (out, stream rest)
unfolding recv_impl wire recv_array recv_elements data_frames
recv_impl-empty_array oids o c p t size out rest h =
    rw
      (
        append_assoc (array_header (type_oid oids t) 0) [] rest,
        header_split (type_oid oids t) 0 rest,
        read_array_header_lem (type_oid oids t) (big_endian 4 0 ++ (big_endian 4 0 ++ rest)) h,
        ==_refl (type_oid oids t),
        read_dimension_lem 0 rest (omega arith),
      )
      refl

-- For an element type whose object identifier is below 2^32: a fixed array refuses an array of
-- another number of elements, which is not 0 and below 2^32, with `bad_array_size`.
pub recv_impl-fixed_size :
    (oids : OidMap) (o : TypeOid) (c : Container) (m : ℕ) (p : Presence) (t : PgType) (size : ℕ)
    (out vs : List (Slot p (El t))) (rest : List ℕ)
    → type_oid oids t < 2 ^ 32
    → length vs < 2 ^ 32
    → 0 < length vs
    → length vs ≢ length out
    → recv_impl oids
        (array o (fixed m) p t)
        size
        out
        (stream (wire oids (array o c p t) vs ++ rest))
      ≡ err bad_array_size
unfolding recv_impl wire recv_array recv_elements fit_array_size
recv_impl-fixed_size oids o c m p t size out vs rest h hs hn ne =
    let elements = data_frames p (wire oids t) vs in
    rw
      (
        append_assoc (array_header (type_oid oids t) (length vs)) elements rest,
        header_split (type_oid oids t) (length vs) (elements ++ rest),
        read_array_header_lem (type_oid oids t)
            (big_endian 4 (length vs) ++ (big_endian 4 0 ++ (elements ++ rest))) h,
        ==_refl (type_oid oids t),
        read_dimension_lem (length vs) (elements ++ rest) hs,
        ==-false_of_ne (length vs) 0 (λ e. absurd (omega arith)),
        ==-false_of_ne (length vs) (length out) ne,
      )
      refl

-- A receiver of an array refuses one whose elements are of a type of another object identifier,
-- below 2^32, with `oid_type_mismatch`, whatever the elements are.
recv_impl-element_oid :
    (oids : OidMap) (o o' : TypeOid) (c c' : Container) (p p' : Presence) (t t' : PgType) (size : ℕ)
    (out : List (Slot p (El t))) (vs : List (Slot p' (El t'))) (rest : List ℕ)
    → type_oid oids t' < 2 ^ 32
    → type_oid oids t ≢ type_oid oids t'
    → recv_impl oids (array o c p t) size out (stream (wire oids (array o' c' p' t') vs ++ rest))
      ≡ err oid_type_mismatch
unfolding recv_impl wire recv_array
recv_impl-element_oid oids o o' c c' p p' t t' size out vs rest h ne =
    let elements = data_frames p' (wire oids t') vs in
    rw
      (
        append_assoc (array_header (type_oid oids t') (length vs)) elements rest,
        header_split (type_oid oids t') (length vs) (elements ++ rest),
        read_array_header_lem (type_oid oids t')
            (big_endian 4 (length vs) ++ (big_endian 4 0 ++ (elements ++ rest))) h,
        ==-false_of_ne (type_oid oids t) (type_oid oids t') ne,
      )
      refl
