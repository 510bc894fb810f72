-- ===== src/Io/Recv/Arrays.antt =====
-- Receiving the header and the elements of an array that was sent.
use mathlib.Core.List.{append_assoc}
use ozo_pg.Base.{
  ℕ, ◌^◌, ◌<◌, ◌≡◌, refl, List, [], ◌∷◌, ◌++◌, true, length, All, ==_refl, ==-false_of_ne, arith,
}
use ozo_pg.Io.Endian.{big_endian}
use ozo_pg.Io.Stream.{stream, ok}
use ozo_pg.Io.Send.Wire.{data_frames, array_header, Held}
use ozo_pg.Io.Recv.{
  Receive, recv_data_frame, read_array_header, read_dimension, recv_elements, recv_array,
}
use ozo_pg.Io.Recv.Frames.{
  read_integral-big_endian, Receives, recv_each_lem, IsRoom, fit_array_size_fresh,
}
use ozo_pg.Io.Types.{Presence, Slot, Container, resizable, fixed, fresh_slot, fresh_array}

pub header_split :
    (o n : ℕ) (bs : List ℕ)
    → array_header o n ++ bs
      ≡ big_endian 4 1
        ++ (big_endian 4 0 ++ (big_endian 4 o ++ (big_endian 4 n ++ (big_endian 4 0 ++ bs))))
unfolding array_header
header_split o n bs = simp append_assoc

pub read_array_header_lem :
    (o : ℕ) (bs : List ℕ)
    → o < 2 ^ 32
    → read_array_header (stream (big_endian 4 1 ++ (big_endian 4 0 ++ (big_endian 4 o ++ bs))))
      ≡ (record { dimensions_count = 1; dataoffset = 0; elemtype = o }, stream bs)
unfolding read_array_header
read_array_header_lem o bs h =
    rw
      (
        read_integral-big_endian 4 1 (big_endian 4 0 ++ (big_endian 4 o ++ bs)) (omega arith),
        read_integral-big_endian 4 0 (big_endian 4 o ++ bs) (omega arith),
        read_integral-big_endian 4 o bs h,
      )
      refl

pub read_dimension_lem :
    (n : ℕ) (bs : List ℕ)
    → n < 2 ^ 32
    → read_dimension (stream (big_endian 4 n ++ (big_endian 4 0 ++ bs))) ≡ (n, stream bs)
unfolding read_dimension
read_dimension_lem n bs h =
    rw
      (
        read_integral-big_endian 4 n (big_endian 4 0 ++ bs) h,
        read_integral-big_endian 4 0 bs (omega arith),
      )
      refl

no_elements : {A : Type 0} (c : Container) (a : A) → IsRoom c 0 → fresh_array c a ≡ []
no_elements resizable a h = refl
no_elements (fixed n) a h = rw (← h) refl

module _ (p : Presence) (c : Container) {A : Type 0} (enc : A → List ℕ) (impl : ℕ → A → Receive A)
    (initial : A) where
  pub elements_received :
      (vs : List (Slot p A)) (rest : List ℕ)
      → length vs < 2 ^ 31
      → IsRoom c (length vs)
      → All (Held p (Receives enc impl initial)) vs
      → recv_elements c 1
          (fresh_slot p initial)
          (recv_data_frame p true impl initial)
          (fresh_array c (fresh_slot p initial))
          (stream (big_endian 4 (length vs) ++ (big_endian 4 0 ++ (data_frames p enc vs ++ rest))))
        ≡ ok (vs, stream rest)
  unfolding recv_elements data_frames
  elements_received [] rest h r a =
      rw
        (
          read_dimension_lem 0 (data_frames p enc [] ++ rest) (omega arith),
          no_elements c (fresh_slot p initial) r,
        )
        refl
  elements_received (v ∷ vs) rest h r a =
      rw
        (
          read_dimension_lem (length (v ∷ vs)) (data_frames p enc (v ∷ vs) ++ rest) (omega arith),
          ==-false_of_ne (length (v ∷ vs)) 0 (λ e. absurd (omega arith)),
          fit_array_size_fresh c (length (v ∷ vs)) (fresh_slot p initial) h r,
        )
        (recv_each_lem enc impl initial p (v ∷ vs) rest a)

  pub array_received :
      (oid : ℕ) (vs : List (Slot p A)) (rest : List ℕ)
      → oid < 2 ^ 32
      → length vs < 2 ^ 31
      → IsRoom c (length vs)
      → All (Held p (Receives enc impl initial)) vs
      → recv_array c oid
          (fresh_slot p initial)
          (recv_data_frame p true impl initial)
          (fresh_array c (fresh_slot p initial))
          (stream ((array_header oid (length vs) ++ data_frames p enc vs) ++ rest))
        ≡ ok (vs, stream rest)
  unfolding recv_array
  array_received oid vs rest ho h r a =
      rw
        (
          append_assoc (array_header oid (length vs)) (data_frames p enc vs) rest,
          header_split oid (length vs) (data_frames p enc vs ++ rest),
          read_array_header_lem oid
              (big_endian 4 (length vs) ++ (big_endian 4 0 ++ (data_frames p enc vs ++ rest))) ho,
          ==_refl oid,
        )
        (elements_received vs rest h r a)
