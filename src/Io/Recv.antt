-- ===== src/Io/Recv.antt =====
-- io/recv.h and the receiving halves of io/array.h, io/composite.h, ext/std/array.h and the versioned
-- types of pg/types. An object is received into one that is there already.
pub mod Frames
pub mod Arrays
pub mod RoundTrip
pub mod ArrayShape
use ozo_pg.Base.{
  ℕ, zero, suc, ◌-◌, ◌^◌, List, [], ◌∷◌, Option, none, some, Bool, true, false, not, ◌&&◌, ◌||◌,
  ltb, ◌==◌, if◌then◌else◌, length,
}
use ozo_pg.Io.SizeOf.{null_state_size, is_negative}
use ozo_pg.Io.Stream.{
  Istream, stream, Result, ok, err, ◌>>=◌, bad_object_size, bad_array_size, bad_array_dimension,
  bad_composite_size, oid_type_mismatch, unexpected_null, range_error, length_error, read,
  read_integral, read_bool, checked,
}
use ozo_pg.Io.Types.{
  Presence, required, nullable, Slot, OidMap, Container, resizable, fixed, PgType, Fields, integral,
  boolean, text, versioned, array, composite, end, field, El, Els, type_oid, fields_number, fresh,
  fresh_slot,
}

-- What a receiver does with a stream: the object, and the stream after it.
abbrev pub Receive : Type 0 → Type 0
Receive A = Istream → Result (A × Istream)

-- The default implementation on a type of static size.
unfoldable pub recv_static : {A : Type 0} → ℕ → ℕ → (Istream → A × Istream) → Receive A
recv_static own size get s = if size == own then checked (get s) else err bad_object_size

-- `resize(size)` converts the size to `size_t`, so that a negative one is beyond any container.
unfoldable pub recv_dynamic : ℕ → Receive (List ℕ)
recv_dynamic size s = if is_negative size then err length_error else checked (read size s)

unfoldable pub recv_versioned : ℕ → Receive (List ℕ)
recv_versioned size s =
    if size == 0 || is_negative size
    then err range_error
    else do (version, after) ← checked (read_integral 1 s); checked (read (size - 1) after)

-- `recv` of recv.h, over the implementation for the unwrapped type. `accepted` is the test of the
-- object identifier, and true where the frame has none.
unfoldable pub recv :
    (p : Presence) {A : Type 0} → Bool → (ℕ → A → Receive A) → A → ℕ → Slot p A → Receive (Slot p A)
recv required accepted impl initial size out s =
    if not accepted
    then err oid_type_mismatch
    else if size == null_state_size
    then err unexpected_null
    else impl size out s
recv nullable accepted impl initial size out s =
    if size == null_state_size
    then ok (none, s)
    else if not accepted
    then err oid_type_mismatch
    else (do
      (v, after) ← impl size (elim out [ none ↦ initial | some v ↦ v ]) s
      ok (some v, after))

unfoldable pub recv_data_frame :
    (p : Presence) {A : Type 0} → Bool → (ℕ → A → Receive A) → A → Slot p A → Receive (Slot p A)
recv_data_frame p accepted impl initial out s = do
  (size, after) ← checked (read_integral 4 s)
  recv p accepted impl initial size out after

unfoldable pub recv_frame :
    (p : Presence) {A : Type 0} → ℕ → (ℕ → A → Receive A) → A → Slot p A → Receive (Slot p A)
recv_frame p expected impl initial out s = do
  (oid, after) ← checked (read_integral 4 s)
  recv_data_frame p (expected == oid) impl initial out after

unfoldable pub recv_each : {A : Type 0} → (A → Receive A) → List A → Receive (List A)
recv_each one [] s = ok ([], s)
recv_each one (v ∷ vs) s = do
  (v', after) ← one v s
  (vs', final) ← recv_each one vs after
  ok (v' ∷ vs', final)

unfoldable pub resize : {A : Type 0} → ℕ → A → List A → List A
resize zero a xs = []
resize (suc n) a [] = a ∷ resize n a []
resize (suc n) a (x ∷ xs) = x ∷ resize n a xs

unfoldable pub fit_array_size : Container → {A : Type 0} → ℕ → A → List A → Result (List A)
unfolding resize
fit_array_size resizable count a out =
    if is_negative count then err length_error else ok (resize count a out)
fit_array_size (fixed n) count a out = if count == length out then ok out else err bad_array_size

pub record ArrayHeader : Type 0 where
  pub dimensions_count : ℕ
  pub dataoffset : ℕ
  pub elemtype : ℕ

-- The members are read one after another, and the flag is tested after the last.
unfoldable pub read_array_header : Istream → ArrayHeader × Istream
read_array_header s =
    let (dimensions, s₁) = read_integral 4 s in
    let (offset, s₂) = read_integral 4 s₁ in
    let (oid, s₃) = read_integral 4 s₂ in
    (record { dimensions_count = dimensions; dataoffset = offset; elemtype = oid }, s₃)

unfoldable pub read_dimension : Istream → ℕ × Istream
read_dimension s =
    let (size, s₁) = read_integral 4 s in let (index, s₂) = read_integral 4 s₁ in (size, s₂)

-- The elements, once the header is read: an array with no dimension or no element leaves `out` alone.
unfoldable pub recv_elements :
    Container → {A : Type 0} → ℕ → A → (A → Receive A) → List A → Receive (List A)
recv_elements c dimensions initial one out s =
    if dimensions == 0 || is_negative dimensions then ok (out, s) else (do
      (size, after) ← checked (read_dimension s)
      if size == 0
          then ok (out, after)
          else (do items ← fit_array_size c size initial out; recv_each one items after))

unfoldable pub recv_array :
    Container → {A : Type 0} → ℕ → A → (A → Receive A) → List A → Receive (List A)
recv_array c expected initial one out s = do
  (header, after) ← checked (read_array_header s)
  if ltb 1 header.dimensions_count && not (is_negative header.dimensions_count)
      then err bad_array_dimension
      else if not (expected == header.elemtype)
      then err oid_type_mismatch
      else recv_elements c header.dimensions_count initial one out after

unfoldable pub read_and_verify_header : ℕ → Receive (Unit {0})
read_and_verify_header count s = do
  (header, after) ← checked (read_integral 4 s)
  if header == count then ok (tt, after) else err bad_composite_size

unfoldable mutual
  pub recv_impl : OidMap → (t : PgType) → ℕ → El t → Receive (El t)
  recv_impl oids (integral o w) size out s = recv_static w size (read_integral w) s
  recv_impl oids (boolean o) size out s = recv_static 1 size read_bool s
  recv_impl oids (text o) size out s = recv_dynamic size s
  recv_impl oids (versioned o) size out s = recv_versioned size s
  recv_impl oids (array o c p t) size out s =
      recv_array c (type_oid oids t) (fresh_slot p (fresh t))
        (recv_data_frame p true (recv_impl oids t) (fresh t)) out s
  recv_impl oids (composite o fs) size out s = do
    (_, after) ← read_and_verify_header (fields_number fs) s
    recv_members oids fs out after

  pub recv_members : OidMap → (fs : Fields) → Els fs → Receive (Els fs)
  recv_members oids end out s = ok (tt, s)
  recv_members oids (field p t fs) out s = do
    (v, after) ← recv_frame p (type_oid oids t) (recv_impl oids t) (fresh t) out.0 s
    (vs, final) ← recv_members oids fs out.1 after
    ok ((v, vs), final)
