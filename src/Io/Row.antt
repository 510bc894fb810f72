-- ===== src/Io/Row.antt =====
-- The part of io/recv.h that receives a query's result. A row is the list of its values; a value has
-- the object identifier of its column and its bytes, or is null.
pub mod RoundTrip
pub mod ByName
pub mod Forward
use ozo_pg.Base.{ℕ, List, [], ◌∷◌, ◌++◌, Option, none, some, ◌==◌, if◌then◌else◌, length}
use ozo_pg.Io.SizeOf.{null_state_size}
use ozo_pg.Io.Stream.{stream, Result, ok, err, ◌>>=◌, range_error}
use ozo_pg.Io.Recv.{recv, recv_impl}
use ozo_pg.Io.Types.{
  Presence, Slot, OidMap, PgType, Fields, end, field, El, Els, type_oid, fields_number, fresh,
  fresh_slot, fresh_fields,
}

pub record Value : Type 0 where
  pub oid : ℕ
  pub bytes : Option (List ℕ)

abbrev pub Row : Type 0
Row = List Value

abbrev pub data_of : Option (List ℕ) → List ℕ
data_of none = []
data_of (some bs) = bs

-- `in.is_null() ? null_state_size : in.size()`
abbrev pub size_or_null : Option (List ℕ) → ℕ
size_or_null none = null_state_size
size_or_null (some bs) = length bs

-- What is left in the stream of a value is not looked at.
unfoldable pub recv_value :
    OidMap → (p : Presence) (t : PgType) → Value → Slot p (El t) → Result (Slot p (El t))
recv_value oids p t v out = do
  (v', _) ←
      recv p (type_oid oids t == v.oid) (recv_impl oids t) (fresh t) (size_or_null v.bytes) out
        (stream (data_of v.bytes))
  ok v'

-- `recv_row` into an object that is no sequence.
unfoldable pub recv_single :
    OidMap → (p : Presence) (t : PgType) → Row → Slot p (El t) → Result (Slot p (El t))
recv_single oids p t (v ∷ []) out = recv_value oids p t v out
recv_single oids p t _ out = err range_error

unfoldable pub recv_items : OidMap → (fs : Fields) → Row → Els fs → Result (Els fs)
recv_items oids end row out = ok tt
recv_items oids (field p t fs) [] out = err range_error
recv_items oids (field p t fs) (v ∷ row) out = do
  item ← recv_value oids p t v out.0
  items ← recv_items oids fs row out.1
  ok (item, items)

-- `recv_row` into a sequence: the sizes are compared first, so that the iterator never passes the end.
unfoldable pub recv_row : OidMap → (fs : Fields) → Row → Els fs → Result (Els fs)
recv_row oids fs row out =
    if fields_number fs == length row then recv_items oids fs row out else err range_error

-- `recv_result` through an insert iterator: each row into a new object, appended to the container.
unfoldable pub recv_result :
    OidMap → (fs : Fields) → List Row → List (Els fs) → Result (List (Els fs))
recv_result oids fs [] out = ok out
recv_result oids fs (row ∷ rows) out = do
  v ← recv_row oids fs row (fresh_fields fs)
  recv_result oids fs rows (out ++ (v ∷ []))
