-- ===== src/Io/Recv/Frames.antt =====
-- Receiving reads back a frame, where the receiver reads back the data inside.
use mathlib.Core.List.{append_assoc}
use ozo_pg.Base.{
  ℕ, zero, suc, ◌^◌, ◌<◌, ◌≡◌, refl, ap, ◌∙◌, List, [], ◌∷◌, ◌++◌, none, some, true, false, ◌==◌,
  length, take-append, drop-append, replicate, length-replicate, All, lt→ltb, ==_refl,
  ==-false_of_ne, arith,
}
use ozo_pg.Io.Endian.{big_endian, length-big_endian, from_network, from_network-big_endian}
use ozo_pg.Io.SizeOf.{null_state_size, is_negative}
use ozo_pg.Io.Stream.{Istream, stream, ok, read, read_integral}
use ozo_pg.Io.Send.Wire.{data_frame, data_frames, Held}
use ozo_pg.Io.Recv.{Receive, recv, recv_data_frame, recv_frame, recv_each, resize, fit_array_size}
use ozo_pg.Io.Types.{
  Presence, required, nullable, Slot, Container, resizable, fixed, fresh_slot, fresh_array,
}

-- As many bytes as were asked for are there.
pub read-stream : (bs rest : List ℕ) → read (length bs) (stream (bs ++ rest)) ≡ (bs, stream rest)
unfolding read
read-stream bs rest = rw (take-append bs rest, drop-append bs rest, ==_refl (length bs)) refl

pub read_integral-big_endian :
    (w v : ℕ) (rest : List ℕ)
    → v < 256 ^ w
    → read_integral w (stream (big_endian w v ++ rest)) ≡ (v, stream rest)
unfolding read_integral
read_integral-big_endian w v rest h =
    ap (λ (r : List ℕ × Istream). (from_network w r.0, r.1))
      (rw (length-big_endian w v) at (read-stream (big_endian w v) rest))
    ∙ ap (λ (n : ℕ). (n, stream rest)) (from_network-big_endian w v h)

pub ne_null : (n : ℕ) → n < 2 ^ 31 → (n == null_state_size) ≡ false
ne_null n h = ==-false_of_ne _ _ (λ e. absurd (omega arith))

pub not_negative : (n : ℕ) → n < 2 ^ 31 → is_negative n ≡ false
not_negative n h = rw (lt→ltb _ _ h) refl

module _ {A : Type 0} (enc : A → List ℕ) (impl : ℕ → A → Receive A) (initial : A) where
  -- The receiver reads the object back from its bytes, which fit a frame.
  abbrev pub Receives : A → Type 0
  Receives v =
      (length (enc v) < 2 ^ 31)
      × ((rest : List ℕ)
          → impl (length (enc v)) initial (stream (enc v ++ rest)) ≡ ok (v, stream rest))

  pub recv_data_frame_lem :
      (p : Presence) (v : Slot p A) (rest : List ℕ)
      → Held p Receives v
      → recv_data_frame p true impl initial
          (fresh_slot p initial)
          (stream (data_frame p enc v ++ rest))
        ≡ ok (v, stream rest)
  unfolding recv_data_frame recv data_frame
  recv_data_frame_lem required v rest h =
      rw
        (
          append_assoc (big_endian 4 (length (enc v))) (enc v) rest,
          read_integral-big_endian 4 (length (enc v)) (enc v ++ rest) (omega (arith, h.0)),
          ne_null _ h.0,
        )
        (h.1 rest)
  recv_data_frame_lem nullable none rest h =
      rw (read_integral-big_endian 4 null_state_size rest (omega arith)) refl
  recv_data_frame_lem nullable (some v) rest h =
      rw
        (
          append_assoc (big_endian 4 (length (enc v))) (enc v) rest,
          read_integral-big_endian 4 (length (enc v)) (enc v ++ rest) (omega (arith, h.0)),
          ne_null _ h.0,
          h.1 rest,
        )
        refl

  pub recv_frame_lem :
      (p : Presence) (oid : ℕ) (v : Slot p A) (rest : List ℕ)
      → oid < 2 ^ 32
      → Held p Receives v
      → recv_frame p oid impl initial
          (fresh_slot p initial)
          (stream ((big_endian 4 oid ++ data_frame p enc v) ++ rest))
        ≡ ok (v, stream rest)
  unfolding recv_frame
  recv_frame_lem p oid v rest ho h =
      rw
        (
          append_assoc (big_endian 4 oid) (data_frame p enc v) rest,
          read_integral-big_endian 4 oid (data_frame p enc v ++ rest) ho,
          ==_refl oid,
        )
        (recv_data_frame_lem p v rest h)

  pub recv_each_lem :
      (p : Presence) (vs : List (Slot p A)) (rest : List ℕ)
      → All (Held p Receives) vs
      → recv_each
          (recv_data_frame p true impl initial)
          (replicate (length vs) (fresh_slot p initial))
          (stream (data_frames p enc vs ++ rest))
        ≡ ok (vs, stream rest)
  unfolding recv_each data_frames
  recv_each_lem p [] rest h = refl
  recv_each_lem p (v ∷ vs) rest h =
      rw
        (
          append_assoc (data_frame p enc v) (data_frames p enc vs) rest,
          recv_data_frame_lem p v (data_frames p enc vs ++ rest) h.0,
          recv_each_lem p vs rest h.1,
        )
        refl

resize-replicate : {A : Type 0} (n : ℕ) (a : A) → resize n a [] ≡ replicate n a
unfolding resize
resize-replicate zero a = refl
resize-replicate (suc n) a = ap (◌∷◌ a) (resize-replicate n a)

-- The container can hold that many elements.
abbrev pub IsRoom : Container → ℕ → Type 0
IsRoom resizable n = Unit
IsRoom (fixed m) n = n ≡ m

pub fit_array_size_fresh :
    {A : Type 0} (c : Container) (n : ℕ) (a : A)
    → n < 2 ^ 31
    → IsRoom c n
    → fit_array_size c n a (fresh_array c a) ≡ ok (replicate n a)
unfolding fit_array_size
fit_array_size_fresh resizable n a h r = rw (not_negative n h) (ap ok (resize-replicate n a))
fit_array_size_fresh (fixed m) n a h r = rw (r, length-replicate m a, ==_refl m) refl
