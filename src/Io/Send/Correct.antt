-- ===== src/Io/Send/Correct.antt =====
-- Sending writes the binary format, and `size_of` is its length.
use mathlib.Core.List.{append_assoc, append-nil}
use ozo_pg.Base.{
  ℕ, ◌+◌, ◌%◌, ◌^◌, ◌<◌, ◌≡◌, refl, sym, ◌∙◌, List, [], ◌∷◌, ◌++◌, Bool, true, false, if◌then◌else◌,
  length, length-append, arith,
}
use ozo_pg.Io.Endian.{big_endian, length-big_endian}
use ozo_pg.Io.SizeOf.{
  size_of, size_of_impl, data_size, frame_size, array_data_size, accumulate_frames, to_size_t,
}
use ozo_pg.Io.Send.{
  Ostream, send_impl, send_members, write_array_header, write_integral, write_bool, put, write_raw,
  write_versioned, send_frame,
}
use ozo_pg.Io.Send.Wire.{
  wire, wire_fields, array_header, Held, IsSendable, AreSendable, IsUniformIf, Held-map, All-map,
  data_frame, data_frames,
}
use ozo_pg.Io.Send.Frames.{
  Measures, Sends, small_size, write_integral-big_endian, accumulate_frames-data_frames,
  data_frame_size-data_frame, send_each_lem, send_data_frame_lem, array_data_size_uniform,
}
use ozo_pg.Io.Types.{
  Presence, Slot, TypeOid, Container, OidMap, PgType, Fields, integral, boolean, text, versioned,
  array, composite, end, field, El, Els, type_oid, fields_number, is_static_size,
}

constant_size :
    (t : PgType) → is_static_size t ≡ true → (v w : El t) → size_of_impl t v ≡ size_of_impl t w
unfolding size_of_impl
constant_size (integral o w) h v v' = refl
constant_size (boolean o) h v v' = refl
constant_size (text o) h v v' = cc
constant_size (versioned o) h v v' = cc
constant_size (array o c p t) h v v' = cc
constant_size (composite o fs) h v v' = cc

-- What `send_impl` is for, at one object: it appends the bytes, and `size_of_impl` counts them where they fit.
abbrev IsCorrect : OidMap → (t : PgType) → El t → Type 0
IsCorrect oids t v =
    (length (wire oids t v) < 2 ^ 31 → size_of_impl t v ≡ length (wire oids t v))
    × ((out : Ostream) → send_impl oids t out v ≡ out ++ wire oids t v)

abbrev AreCorrect : OidMap → (fs : Fields) → Els fs → Type 0
AreCorrect oids fs v =
    (data_size fs v ≡ length (wire_fields oids fs v) % 2 ^ 32)
    × ((out : Ostream) → send_members oids fs out v ≡ out ++ wire_fields oids fs v)

pub length-array_header : (o n : ℕ) → length (array_header o n) ≡ 20
unfolding array_header
length-array_header o n =
    rw
      (
        length-append (big_endian 4 1),
        length-append (big_endian 4 0),
        length-append (big_endian 4 o),
        length-append (big_endian 4 n),
        length-big_endian 4 1,
        length-big_endian 4 0,
        length-big_endian 4 o,
        length-big_endian 4 n,
      )
      refl

write_array_header_lem :
    (o n : ℕ) (out : Ostream) → n < 2 ^ 31 → write_array_header out o n ≡ out ++ array_header o n
unfolding write_array_header array_header
write_array_header_lem o n out h =
    rw (small_size n h) (simp (write_integral-big_endian, append_assoc))

size_t_sum :
    (size n : ℕ) → size ≡ n % 2 ^ 32 → 20 + n < 2 ^ 31 → (20 + to_size_t size) % 2 ^ 64 ≡ 20 + n
size_t_sum size n e h = ground arith

module _ (oids : OidMap) (p : Presence) (t : PgType)
    (sound : (v : El t) → IsSendable oids t v → IsCorrect oids t v) where
  to_sends :
      (v : El t)
      → IsSendable oids t v × (length (wire oids t v) < 2 ^ 31)
      → Sends (size_of_impl t) (wire oids t) (send_impl oids t) v
  to_sends v h = let c = sound v h.0 in ((c.0 h.1, h.1), c.1)

  to_measures :
      (v : El t)
      → IsSendable oids t v × (length (wire oids t v) < 2 ^ 31)
      → Measures (size_of_impl t) (wire oids t) v
  to_measures v h = (to_sends v h).0

  array_sends :
      (o : TypeOid) (c : Container) (v : List (Slot p (El t)))
      → IsSendable oids (array o c p t) v
      → (out : Ostream) → send_impl oids (array o c p t) out v ≡ out ++ wire oids (array o c p t) v
  unfolding send_impl wire
  array_sends o c v h out = rw (write_array_header_lem (type_oid oids t) (length v) out h.1) (
      send_each_lem (size_of_impl t) (wire oids t) (send_impl oids t) p v _
        (All-map v (λ x. Held-map p x to_sends) h.0)
      ∙ append_assoc out _ _)

  array_sum :
      (b : Bool) (v : List (Slot p (El t)))
      → is_static_size t ≡ b
      → IsUniformIf b p (El t) v
      → array_data_size b (size_of p (size_of_impl t)) v
        ≡ accumulate_frames (size_of p (size_of_impl t)) v
  array_sum true v e h =
      array_data_size_uniform (size_of_impl t) (wire oids t) (constant_size t e) p v h
  array_sum false v e h = unfold array_data_size in refl

  array_measures :
      (o : TypeOid) (c : Container) (v : List (Slot p (El t)))
      → IsSendable oids (array o c p t) v
      → length (wire oids (array o c p t) v) < 2 ^ 31
      → size_of_impl (array o c p t) v ≡ length (wire oids (array o c p t) v)
  unfolding size_of_impl wire
  array_measures o c v h fits = rw (array_sum (is_static_size t) v refl h.2) (
      let whole =
        length-append (array_header (type_oid oids t) (length v)) (data_frames p (wire oids t) v) in
      let header = length-array_header (type_oid oids t) (length v) in
      size_t_sum _ (length (data_frames p (wire oids t) v))
        (accumulate_frames-data_frames (size_of_impl t) (wire oids t) p v
          (All-map v (λ x. Held-map p x to_measures) h.0))
        (omega (arith, fits, whole, header))
      ∙ omega (arith, whole, header))

  field_correct :
      (fs : Fields) (v : Slot p (El t)) (vs : Els fs)
      → Held p (λ x. IsSendable oids t x × (length (wire oids t x) < 2 ^ 31)) v
      → AreCorrect oids fs vs
      → AreCorrect oids (field p t fs) (v, vs)
  unfolding data_size wire_fields send_members frame_size send_frame
  field_correct fs v vs h rest = (
    omega (
      arith,
      length-append (big_endian 4 (type_oid oids t))
          (data_frame p (wire oids t) v ++ wire_fields oids fs vs),
      length-append (data_frame p (wire oids t) v) (wire_fields oids fs vs),
      length-big_endian 4 (type_oid oids t),
      data_frame_size-data_frame (size_of_impl t) (wire oids t) p v (Held-map p v to_measures h),
      rest.0,
    ),
    λ out.
        rw
          (
            rest.1,
            send_data_frame_lem (size_of_impl t) (wire oids t) (send_impl oids t) p v
                (write_integral 4 out (type_oid oids t)) (Held-map p v to_sends h),
            write_integral-big_endian 4 out (type_oid oids t),
          )
          (simp append_assoc),
  )

write_bool_lem : (out : Ostream) (v : Bool) → write_bool out v ≡ out ++ ((if v then 1 else 0) ∷ [])
unfolding write_bool put
write_bool_lem out true = refl
write_bool_lem out false = refl

write_versioned_lem : (out : Ostream) (v : List ℕ) → write_versioned out v ≡ out ++ (1 ∷ v)
unfolding write_versioned write_integral put write_raw
write_versioned_lem out v = append_assoc out (1 ∷ []) v

mutual
  unfolding size_of_impl send_impl wire write_raw

  send-IsCorrect :
      (oids : OidMap) (t : PgType) (v : El t) → IsSendable oids t v → IsCorrect oids t v
  send-IsCorrect oids (integral o w) v h =
      (λ fits. sym (length-big_endian w v), λ out. write_integral-big_endian w out v)
  send-IsCorrect oids (boolean o) v h = (λ fits. refl, λ out. write_bool_lem out v)
  send-IsCorrect oids (text o) v h = (λ fits. refl, λ out. refl)
  send-IsCorrect oids (versioned o) v h = (λ fits. omega arith, λ out. write_versioned_lem out v)
  send-IsCorrect oids (array o c p t) v h = (
    array_measures oids p t (send-IsCorrect oids t) o c v h,
    array_sends oids p t (send-IsCorrect oids t) o c v h,
  )
  send-IsCorrect oids (composite o fs) v h =
      let (size, sent) = members_correct oids fs v h in
      (
        λ fits. omega (
          arith,
          fits,
          size,
          length-append (big_endian 4 (fields_number fs)) (wire_fields oids fs v),
          length-big_endian 4 (fields_number fs),
        ),
        λ out. rw (sent, write_integral-big_endian 4 out (fields_number fs)) (append_assoc out _ _),
      )

  members_correct :
      (oids : OidMap) (fs : Fields) (v : Els fs) → AreSendable oids fs v → AreCorrect oids fs v
  members_correct oids end v h = (refl, λ out. sym (append-nil out))
  members_correct oids (field p t fs) v h =
      field_correct oids p t (send-IsCorrect oids t) fs v.0 v.1 h.0
        (members_correct oids fs v.1 h.1)

pub send_impl-bytes :
    (oids : OidMap) (t : PgType) (v : El t) (out : Ostream)
    → IsSendable oids t v
    → send_impl oids t out v ≡ out ++ wire oids t v
send_impl-bytes oids t v out h = (send-IsCorrect oids t v h).1 out

-- For an object whose inner sizes fit, whose arrays of static size hold no null or only nulls, and whose
-- bytes are fewer than 2^31: sending it appends to the buffer its PostgreSQL binary format, with each
-- inner size in place, and the size computed beforehand is the number of these bytes.
pub send_impl-wire :
    (oids : OidMap) (t : PgType) (v : El t) (out : Ostream)
    → IsSendable oids t v
    → length (wire oids t v) < 2 ^ 31
    → (send_impl oids t out v ≡ out ++ wire oids t v) × (size_of_impl t v ≡ length (wire oids t v))
send_impl-wire oids t v out h fits =
    let (size, sent) = send-IsCorrect oids t v h in (sent out, size fits)
