-- ===== src/Io/Send.antt =====
-- io/ostream.h, io/send.h and the sending halves of io/array.h, io/composite.h and the versioned
-- types of pg/types. A stream is the buffer behind it.
pub mod Wire
pub mod Frames
pub mod Correct
pub mod Nulls
use ozo_pg.Base.{ℕ, ◌%◌, ◌^◌, List, [], ◌∷◌, ◌++◌, none, some, Bool, ◌==◌, if◌then◌else◌, length}
use ozo_pg.Io.Endian.{raw, byte_order_swap}
use ozo_pg.Io.SizeOf.{size_of, size_of_impl}
use ozo_pg.Io.Types.{
  Presence, required, nullable, Slot, OidMap, PgType, Fields, integral, boolean, text, versioned,
  array, composite, end, field, El, Els, type_oid, fields_number,
}

abbrev pub Ostream : Type 0
Ostream = List ℕ

unfoldable pub put : Ostream → ℕ → Ostream
put out ch = out ++ (ch % 256 ∷ [])

unfoldable pub write_raw : Ostream → List ℕ → Ostream
write_raw out bs = out ++ bs

-- An integral of one byte is put, a wider one goes through `typed_buffer`.
unfoldable pub write_integral : ℕ → Ostream → ℕ → Ostream
write_integral w out v = if w == 1 then put out v else write_raw out (raw w (byte_order_swap w v))

unfoldable pub write_bool : Ostream → Bool → Ostream
write_bool out v = put out (if v then 1 else 0)

-- `send`: an object in null state writes nothing.
unfoldable pub send :
    (p : Presence) {A : Type 0} → (Ostream → A → Ostream) → Ostream → Slot p A → Ostream
send required impl out v = impl out v
send nullable impl out none = out
send nullable impl out (some v) = impl out v

-- The size and then the data.
unfoldable pub send_data_frame :
    (p : Presence) {A : Type 0} → (A → ℕ) → (Ostream → A → Ostream) → Ostream → Slot p A → Ostream
send_data_frame p size impl out v = send p impl (write_integral 4 out (size_of p size v)) v

unfoldable pub send_frame :
    (p : Presence) {A : Type 0}
    → ℕ
    → (A → ℕ)
    → (Ostream → A → Ostream)
    → Ostream
    → Slot p A
    → Ostream
send_frame p oid size impl out v = send_data_frame p size impl (write_integral 4 out oid) v

unfoldable pub send_each : {A : Type 0} → (Ostream → A → Ostream) → Ostream → List A → Ostream
send_each step out [] = out
send_each step out (v ∷ vs) = send_each step (step out v) vs

-- The members of `pg_array` and of `pg_array_dimension`.
unfoldable pub write_array_header : Ostream → ℕ → ℕ → Ostream
write_array_header out elemtype size =
    let header = write_integral 4 (write_integral 4 (write_integral 4 out 1) 0) elemtype in
    write_integral 4 (write_integral 4 header (size % 2 ^ 32)) 0

unfoldable pub write_versioned : Ostream → List ℕ → Ostream
write_versioned out v = write_raw (write_integral 1 out 1) v

unfoldable mutual
  pub send_impl : OidMap → (t : PgType) → Ostream → El t → Ostream
  send_impl oids (integral o w) out v = write_integral w out v
  send_impl oids (boolean o) out v = write_bool out v
  send_impl oids (text o) out v = write_raw out v
  send_impl oids (versioned o) out v = write_versioned out v
  send_impl oids (array o c p t) out v =
      send_each (send_data_frame p (size_of_impl t) (send_impl oids t))
        (write_array_header out (type_oid oids t) (length v)) v
  send_impl oids (composite o fs) out v =
      send_members oids fs (write_integral 4 out (fields_number fs)) v

  pub send_members : OidMap → (fs : Fields) → Ostream → Els fs → Ostream
  send_members oids end out v = out
  send_members oids (field p t fs) out v =
      send_members oids fs
        (send_frame p (type_oid oids t) (size_of_impl t) (send_impl oids t) out v.0) v.1
