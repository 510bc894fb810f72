-- ===== src/Io/Send/Frames.antt =====
-- `size_of` measures a frame, and the streams append it, where both hold of the data inside.
use mathlib.Core.List.{append_assoc, append-nil}
use ozo_pg.Base.{
  ℕ, ◌*◌, ◌%◌, ◌^◌, ◌<◌, ◌≡◌, refl, sym, ap, ◌∙◌, inl, inr, List, [], ◌∷◌, ◌++◌, none, some, Bool,
  true, ◌==◌, length, length-append, All, Bool-cases, ==→eq, lt→ltb, arith,
}
use ozo_pg.Io.Endian.{big_endian, length-big_endian, raw-byte_order_swap}
use ozo_pg.Io.SizeOf.{size_of, null_state_size, data_frame_size, accumulate_frames, array_data_size}
use ozo_pg.Io.Send.{Ostream, put, write_raw, write_integral, send, send_data_frame, send_each}
use ozo_pg.Io.Send.Wire.{data_frame, data_frames, Held, IsUniform}
use ozo_pg.Io.Types.{Presence, required, nullable, Slot, is_null}

-- One integer in network order.
pub write_integral-big_endian :
    (w : ℕ) (out : Ostream) (v : ℕ) → write_integral w out v ≡ out ++ big_endian w v
unfolding write_integral put write_raw
write_integral-big_endian w out v = elim (Bool-cases (w == 1)) [
  | inl e ↦ rw e (rw (==→eq w 1 e) (unfold big_endian in refl))
  | inr e ↦ rw e (ap (◌++◌ out) (raw-byte_order_swap w v))
]

pub small_size : (n : ℕ) → n < 2 ^ 31 → n % 2 ^ 32 ≡ n
small_size n h = omega arith

module _ {A : Type 0} (size : A → ℕ) (enc : A → List ℕ) where
  -- The size is that of the bytes, which fit a frame.
  abbrev pub Measures : A → Type 0
  Measures v = (size v ≡ length (enc v)) × (length (enc v) < 2 ^ 31)

  frame_size_of :
      (v : A)
      → Measures v
      → data_frame_size (size v % 2 ^ 32) ≡ length (big_endian 4 (length (enc v)) ++ enc v)
  unfolding data_frame_size
  frame_size_of v h =
      rw
        (
          h.0,
          small_size _ h.1,
          length-append (big_endian 4 (length (enc v))) (enc v),
          length-big_endian 4 (length (enc v)),
          lt→ltb _ _ h.1,
        )
        refl

  pub data_frame_size-data_frame :
      (p : Presence) (v : Slot p A)
      → Held p Measures v
      → data_frame_size (size_of p size v) ≡ length (data_frame p enc v)
  unfolding size_of data_frame
  data_frame_size-data_frame required v h = frame_size_of v h
  data_frame_size-data_frame nullable none h =
      unfold data_frame_size in rw (length-big_endian 4 null_state_size) refl
  data_frame_size-data_frame nullable (some v) h = frame_size_of v h

  pub accumulate_frames-data_frames :
      (p : Presence) (vs : List (Slot p A))
      → All (Held p Measures) vs
      → accumulate_frames (size_of p size) vs ≡ length (data_frames p enc vs) % 2 ^ 32
  unfolding accumulate_frames data_frames
  accumulate_frames-data_frames p [] h = refl
  accumulate_frames-data_frames p (v ∷ vs) h = omega (
    arith,
    length-append (data_frame p enc v) (data_frames p enc vs),
    data_frame_size-data_frame p v h.0,
    accumulate_frames-data_frames p vs h.1,
  )

  module _ (impl : Ostream → A → Ostream) where
    abbrev pub Sends : A → Type 0
    Sends v = Measures v × ((out : Ostream) → impl out v ≡ out ++ enc v)

    send_framed :
        (v : A) (out : Ostream)
        → Sends v
        → impl (write_integral 4 out (size v % 2 ^ 32)) v
          ≡ out ++ (big_endian 4 (length (enc v)) ++ enc v)
    send_framed v out h =
        rw (h.1, write_integral-big_endian 4 out, h.0.0, small_size _ h.0.1)
          (append_assoc out (big_endian 4 (length (enc v))) (enc v))

    pub send_data_frame_lem :
        (p : Presence) (v : Slot p A) (out : Ostream)
        → Held p Sends v
        → send_data_frame p size impl out v ≡ out ++ data_frame p enc v
    unfolding send_data_frame send size_of data_frame
    send_data_frame_lem required v out h = send_framed v out h
    send_data_frame_lem nullable none out h = write_integral-big_endian 4 out null_state_size
    send_data_frame_lem nullable (some v) out h = send_framed v out h

    pub send_each_lem :
        (p : Presence) (vs : List (Slot p A)) (out : Ostream)
        → All (Held p Sends) vs
        → send_each (send_data_frame p size impl) out vs ≡ out ++ data_frames p enc vs
    unfolding send_each data_frames
    send_each_lem p [] out h = sym (append-nil out)
    send_each_lem p (v ∷ vs) out h =
        rw (send_data_frame_lem p v out h.0, send_each_lem p vs (out ++ data_frame p enc v) h.1)
          (append_assoc out _ _)

  -- The shortcut for elements of static size agrees with the sum where all are null or none is.
  module _ (constant : (a b : A) → size a ≡ size b) where
    size_of_uniform :
        (p : Presence) (v w : Slot p A)
        → is_null p A v ≡ is_null p A w
        → size_of p size v ≡ size_of p size w
    unfolding size_of is_null
    size_of_uniform required v w h = rw (constant v w)
    size_of_uniform nullable none none h = refl
    size_of_uniform nullable none (some w) h = cc
    size_of_uniform nullable (some v) none h = cc
    size_of_uniform nullable (some v) (some w) h = rw (constant v w)

    accumulate_frames_uniform :
        (p : Presence) (b : Bool) (w : Slot p A) (vs : List (Slot p A))
        → is_null p A w ≡ b
        → All (λ v. is_null p A v ≡ b) vs
        → accumulate_frames (size_of p size) vs
          ≡ (data_frame_size (size_of p size w) * length vs) % 2 ^ 32
    unfolding accumulate_frames
    accumulate_frames_uniform p b w [] hw h = omega arith
    accumulate_frames_uniform p b w (v ∷ vs) hw h =
        rw (size_of_uniform p v w (h.0 ∙ sym hw))
          (omega (arith, accumulate_frames_uniform p b w vs hw h.1))

    pub array_data_size_uniform :
        (p : Presence) (vs : List (Slot p A))
        → IsUniform p A vs
        → array_data_size true (size_of p size) vs ≡ accumulate_frames (size_of p size) vs
    unfolding array_data_size
    array_data_size_uniform p [] h = unfold accumulate_frames in refl
    array_data_size_uniform p (v ∷ vs) h =
        sym (accumulate_frames_uniform p h.0 v (v ∷ vs) (h.1.0) h.1)
