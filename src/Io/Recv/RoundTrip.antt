-- ===== src/Io/Recv/RoundTrip.antt =====
-- Receiving what was sent gives the object back.
use mathlib.Core.List.{append_assoc}
use ozo_pg.Base.{
  ℕ, suc, ◌-◌, ◌%◌, ◌^◌, ◌<◌, ◌≡◌, refl, List, [], ◌∷◌, ◌++◌, Bool, true, false, length, All,
  ==_refl, ==-false_of_ne, arith,
}
use ozo_pg.Io.Endian.{big_endian, length-big_endian}
use ozo_pg.Io.SizeOf.{size_of_impl}
use ozo_pg.Io.Stream.{stream, ok, read_integral, read_bool}
use ozo_pg.Io.Send.{send_impl}
use ozo_pg.Io.Send.Wire.{wire, wire_fields, data_frame, Held, IsSendable, Held-map, All-map}
use ozo_pg.Io.Send.Correct.{send_impl-wire}
use ozo_pg.Io.Recv.{
  recv_static, recv_dynamic, recv_versioned, read_and_verify_header, recv_impl, recv_members,
}
use ozo_pg.Io.Recv.Frames.{
  read-stream, read_integral-big_endian, not_negative, Receives, recv_frame_lem, IsRoom,
}
use ozo_pg.Io.Recv.Arrays.{array_received}
use ozo_pg.Io.Types.{
  Presence, Slot, TypeOid, Container, OidMap, PgType, Fields, integral, boolean, text, versioned,
  array, composite, end, field, El, Els, type_oid, fields_number, fresh, fresh_fields,
}

-- The values that a receiver of the type can hold: numbers within their width, sizes within a
-- `size_type`, object identifiers within `oid_t`.
abbrev mutual
  pub IsReceivable : OidMap → (t : PgType) → El t → Type 0
  IsReceivable oids (integral o w) v = v < 256 ^ w
  IsReceivable oids (boolean o) v = Unit
  IsReceivable oids (text o) v = length v < 2 ^ 31
  IsReceivable oids (versioned o) v = suc (length v) < 2 ^ 31
  IsReceivable oids (array o c p t) v =
      All (Held p (λ x. IsReceivable oids t x × (length (wire oids t x) < 2 ^ 31))) v
      × (length v < 2 ^ 31)
      × IsRoom c (length v)
      × (type_oid oids t < 2 ^ 32)
  IsReceivable oids (composite o fs) v = (fields_number fs < 2 ^ 32) × AreReceivable oids fs v

  pub AreReceivable : OidMap → (fs : Fields) → Els fs → Type 0
  AreReceivable oids end v = Unit
  AreReceivable oids (field p t fs) v =
      Held p (λ x. IsReceivable oids t x × (length (wire oids t x) < 2 ^ 31)) v.0
      × (type_oid oids t < 2 ^ 32)
      × AreReceivable oids fs v.1

abbrev IsReceived : OidMap → (t : PgType) → El t → Type 0
IsReceived oids t v =
    length (wire oids t v) < 2 ^ 31
    → (rest : List ℕ)
    → recv_impl oids t (length (wire oids t v)) (fresh t) (stream (wire oids t v ++ rest))
      ≡ ok (v, stream rest)

abbrev AreReceived : OidMap → (fs : Fields) → Els fs → Type 0
AreReceived oids fs v =
    (rest : List ℕ)
    → recv_members oids fs (fresh_fields fs) (stream (wire_fields oids fs v ++ rest))
      ≡ ok (v, stream rest)

module _ (oids : OidMap) (p : Presence) (t : PgType)
    (back : (v : El t) → IsReceivable oids t v → IsReceived oids t v) where
  to_receives :
      (v : El t)
      → IsReceivable oids t v × (length (wire oids t v) < 2 ^ 31)
      → Receives (wire oids t) (recv_impl oids t) (fresh t) v
  to_receives v h = (h.1, back v h.0 h.1)

  array_back :
      (o : TypeOid) (c : Container) (v : List (Slot p (El t)))
      → IsReceivable oids (array o c p t) v
      → IsReceived oids (array o c p t) v
  unfolding recv_impl wire
  array_back o c v h fits rest =
      array_received p c (wire oids t) (recv_impl oids t) (fresh t) (type_oid oids t) v rest h.3 h.1
        h.2 (All-map v (λ x. Held-map p x to_receives) h.0)

  field_back :
      (fs : Fields) (v : Slot p (El t)) (vs : Els fs)
      → Held p (λ x. IsReceivable oids t x × (length (wire oids t x) < 2 ^ 31)) v
      → type_oid oids t < 2 ^ 32
      → AreReceived oids fs vs
      → AreReceived oids (field p t fs) (v, vs)
  unfolding recv_members wire_fields
  field_back fs v vs h ho back_rest rest =
      rw
        (
          ← append_assoc (big_endian 4 (type_oid oids t)) (data_frame p (wire oids t) v)
              (wire_fields oids fs vs),
          append_assoc (big_endian 4 (type_oid oids t) ++ data_frame p (wire oids t) v)
              (wire_fields oids fs vs) rest,
          recv_frame_lem (wire oids t) (recv_impl oids t) (fresh t) p (type_oid oids t) v
              (wire_fields oids fs vs ++ rest) ho (Held-map p v to_receives h),
          back_rest rest,
        )
        refl

integral_back :
    (oids : OidMap) (o : TypeOid) (w v : ℕ) → v < 256 ^ w → IsReceived oids (integral o w) v
unfolding recv_impl wire recv_static
integral_back oids o w v h fits rest =
    rw (length-big_endian w v, ==_refl w, read_integral-big_endian w v rest h) refl

read_byte :
    (b : ℕ) (rest : List ℕ) → b < 256 → read_integral 1 (stream (b ∷ rest)) ≡ (b, stream rest)
unfolding big_endian
read_byte b rest h =
    let e : b % 256 ≡ b = omega arith in rw e at (read_integral-big_endian 1 b rest (omega arith))

boolean_back : (oids : OidMap) (o : TypeOid) (v : Bool) → IsReceived oids (boolean o) v
unfolding recv_impl wire recv_static read_bool
boolean_back oids o true fits rest = rw (read_byte 1 rest (omega arith)) refl
boolean_back oids o false fits rest = rw (read_byte 0 rest (omega arith)) refl

text_back : (oids : OidMap) (o : TypeOid) (v : List ℕ) → IsReceived oids (text o) v
unfolding recv_impl wire recv_dynamic
text_back oids o v fits rest = rw (not_negative (length v) fits, read-stream v rest) refl

minus_one : (n : ℕ) → suc n - 1 ≡ n
minus_one n = omega arith

versioned_back : (oids : OidMap) (o : TypeOid) (v : List ℕ) → IsReceived oids (versioned o) v
unfolding recv_impl wire recv_versioned
versioned_back oids o v fits rest =
    rw
      (
        not_negative (suc (length v)) fits,
        ==-false_of_ne (suc (length v)) 0 (λ e. absurd (omega arith)),
        read_byte 1 (v ++ rest) (omega arith),
        minus_one (length v),
        read-stream v rest,
      )
      refl

composite_back :
    (oids : OidMap) (o : TypeOid) (fs : Fields) (v : Els fs)
    → fields_number fs < 2 ^ 32
    → AreReceived oids fs v
    → (rest : List ℕ)
    → recv_impl oids
        (composite o fs)
        (length (wire oids (composite o fs) v))
        (fresh_fields fs)
        (stream (wire oids (composite o fs) v ++ rest))
      ≡ ok (v, stream rest)
unfolding recv_impl wire read_and_verify_header
composite_back oids o fs v hn back rest =
    rw
      (
        append_assoc (big_endian 4 (fields_number fs)) (wire_fields oids fs v) rest,
        read_integral-big_endian 4 (fields_number fs) (wire_fields oids fs v ++ rest) hn,
        ==_refl (fields_number fs),
      )
      (back rest)

mutual
  unfolding recv_impl recv_members wire wire_fields

  receive_back :
      (oids : OidMap) (t : PgType) (v : El t) → IsReceivable oids t v → IsReceived oids t v
  receive_back oids (integral o w) v h = integral_back oids o w v h
  receive_back oids (boolean o) v h = boolean_back oids o v
  receive_back oids (text o) v h = text_back oids o v
  receive_back oids (versioned o) v h = versioned_back oids o v
  receive_back oids (array o c p t) v h = array_back oids p t (receive_back oids t) o c v h
  receive_back oids (composite o fs) v h =
      λ fits. composite_back oids o fs v h.0 (members_back oids fs v h.1)

  members_back :
      (oids : OidMap) (fs : Fields) (v : Els fs) → AreReceivable oids fs v → AreReceived oids fs v
  members_back oids end v h = λ rest. refl
  members_back oids (field p t fs) v h =
      field_back oids p t (receive_back oids t) fs v.0 v.1 h.0 h.1 (members_back oids fs v.1 h.2)

-- For an object that can be sent (its sizes fit, and its arrays of static size hold no null or
-- only nulls), that a receiver of the type can hold, and whose bytes are fewer than 2^31: what
-- `send_impl` wrote for it into an empty buffer, followed by anything, is received into a
-- value-initialised object of the type as that object, and what followed is left in the stream.
pub recv_impl-send_impl :
    (oids : OidMap) (t : PgType) (v : El t) (rest : List ℕ)
    → IsSendable oids t v
    → IsReceivable oids t v
    → length (wire oids t v) < 2 ^ 31
    → recv_impl oids t (size_of_impl t v) (fresh t) (stream (send_impl oids t [] v ++ rest))
      ≡ ok (v, stream rest)
recv_impl-send_impl oids t v rest sendable receivable fits =
    let (sent, size) = send_impl-wire oids t v [] sendable fits in
    rw (sent, size) (receive_back oids t v receivable fits rest)
