-- ===== src/Io/Row/RoundTrip.antt =====
-- A result that holds what was sent is received as the objects that were sent.
use mathlib.Core.List.{append_assoc, append-nil}
use ozo_pg.Base.{
  ℕ, ◌^◌, ◌<◌, ◌≡◌, refl, sym, ap, List, [], ◌∷◌, ◌++◌, Option, none, some, length, map, All,
  ==_refl, arith,
}
use ozo_pg.Io.Stream.{stream, ok}
use ozo_pg.Io.Send.{send_impl}
use ozo_pg.Io.Send.Wire.{wire, Held, IsSendable}
use ozo_pg.Io.Send.Correct.{send_impl-wire}
use ozo_pg.Io.Recv.{recv, recv_impl}
use ozo_pg.Io.Recv.Frames.{ne_null}
use ozo_pg.Io.Recv.RoundTrip.{IsReceivable, recv_impl-send_impl}
use ozo_pg.Io.Row.{Row, recv_value, recv_items, recv_row, recv_result}
use ozo_pg.Io.Types.{
  Presence, required, nullable, Slot, OidMap, PgType, Fields, end, field, El, Els, type_oid,
  fields_number, fresh, fresh_slot, fresh_fields,
}

-- The value that a column holds for an object that was sent.
abbrev pub sent_bytes : OidMap → (p : Presence) (t : PgType) → Slot p (El t) → Option (List ℕ)
sent_bytes oids required t v = some (send_impl oids t [] v)
sent_bytes oids nullable t none = none
sent_bytes oids nullable t (some v) = some (send_impl oids t [] v)

abbrev pub sent_row : OidMap → (fs : Fields) → Els fs → Row
sent_row oids end v = []
sent_row oids (field p t fs) v =
    record { oid = type_oid oids t; bytes = sent_bytes oids p t v.0 } ∷ sent_row oids fs v.1

module _ (oids : OidMap) (t : PgType) where
  abbrev pub CanReturn : El t → Type 0
  CanReturn v = IsSendable oids t v × IsReceivable oids t v × (length (wire oids t v) < 2 ^ 31)

  impl_back :
      (v : El t)
      → CanReturn v
      → (recv_impl oids t
            (length (send_impl oids t [] v))
            (fresh t)
            (stream (send_impl oids t [] v))
          ≡ ok (v, stream []))
        × (length (send_impl oids t [] v) < 2 ^ 31)
  impl_back v h =
      let (sent, size) = send_impl-wire oids t v [] h.0 h.2 in
      let whole = recv_impl-send_impl oids t v [] h.0 h.1 h.2 in
      (rw (append-nil (send_impl oids t [] v), size, ← sent) at whole, rw sent h.2)

  pub value_back :
      (p : Presence) (v : Slot p (El t))
      → Held p CanReturn v
      → recv_value oids p t
          (record { oid = type_oid oids t; bytes = sent_bytes oids p t v })
          (fresh_slot p (fresh t))
        ≡ ok v
  unfolding recv_value recv
  value_back required v h =
      let (back, fits) = impl_back v h in rw (==_refl (type_oid oids t), ne_null _ fits, back) refl
  value_back nullable none h = refl
  value_back nullable (some v) h =
      let (back, fits) = impl_back v h in rw (==_refl (type_oid oids t), ne_null _ fits, back) refl

-- Every object of a row can be sent and received, and its bytes fit a frame.
abbrev pub CanReturnAll : OidMap → (fs : Fields) → Els fs → Type 0
CanReturnAll oids end v = Unit
CanReturnAll oids (field p t fs) v = Held p (CanReturn oids t) v.0 × CanReturnAll oids fs v.1

items_back :
    (oids : OidMap) (fs : Fields) (v : Els fs)
    → CanReturnAll oids fs v
    → recv_items oids fs (sent_row oids fs v) (fresh_fields fs) ≡ ok v
unfolding recv_items
items_back oids end v h = refl
items_back oids (field p t fs) v h =
    rw (value_back oids t p v.0 h.0, items_back oids fs v.1 h.1) refl

length-sent_row :
    (oids : OidMap) (fs : Fields) (v : Els fs) → length (sent_row oids fs v) ≡ fields_number fs
length-sent_row oids end v = refl
length-sent_row oids (field p t fs) v = omega (arith, length-sent_row oids fs v.1)

row_back :
    (oids : OidMap) (fs : Fields) (v : Els fs)
    → CanReturnAll oids fs v
    → recv_row oids fs (sent_row oids fs v) (fresh_fields fs) ≡ ok v
unfolding recv_row
row_back oids fs v h =
    rw (length-sent_row oids fs v, ==_refl (fields_number fs)) (items_back oids fs v h)

-- A result whose rows hold what `send_impl` writes for some objects, each of which can be sent,
-- can be held by a receiver and fits a frame, under the object identifiers of their types, is
-- appended to the container as these objects, in order.
pub recv_result-sent_row :
    (oids : OidMap) (fs : Fields) (vs out : List (Els fs))
    → All (CanReturnAll oids fs) vs
    → recv_result oids fs (map (sent_row oids fs) vs) out ≡ ok (out ++ vs)
unfolding recv_result
recv_result-sent_row oids fs [] out h = ap ok (sym (append-nil out))
recv_result-sent_row oids fs (v ∷ vs) out h =
    rw (row_back oids fs v h.0, recv_result-sent_row oids fs vs (out ++ (v ∷ [])) h.1)
      (ap ok (append_assoc out (v ∷ []) vs))
