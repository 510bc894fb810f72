-- ===== src/Io/Send/Wire.antt =====
-- The binary format of PostgreSQL, as a description that is independent of the streams.
use ozo_pg.Base.{
  ℕ, ◌^◌, ◌<◌, ◌≡◌, List, [], ◌∷◌, ◌++◌, none, some, Bool, true, false, if◌then◌else◌, length, All,
}
use ozo_pg.Io.Endian.{big_endian}
use ozo_pg.Io.SizeOf.{null_state_size}
use ozo_pg.Io.Types.{
  Presence, required, nullable, Slot, OidMap, PgType, Fields, integral, boolean, text, versioned,
  array, composite, end, field, El, Els, type_oid, fields_number, is_static_size, is_null,
}

-- A data frame: the number of the bytes that follow, or -1 for null, and the bytes.
unfoldable pub data_frame : (p : Presence) {A : Type 0} → (A → List ℕ) → Slot p A → List ℕ
data_frame required enc v = big_endian 4 (length (enc v)) ++ enc v
data_frame nullable enc none = big_endian 4 null_state_size
data_frame nullable enc (some v) = big_endian 4 (length (enc v)) ++ enc v

unfoldable pub data_frames : (p : Presence) {A : Type 0} → (A → List ℕ) → List (Slot p A) → List ℕ
data_frames p enc [] = []
data_frames p enc (v ∷ vs) = data_frame p enc v ++ data_frames p enc vs

unfoldable pub array_header : ℕ → ℕ → List ℕ
array_header elemtype size =
    big_endian 4 1
    ++ (big_endian 4 0 ++ (big_endian 4 elemtype ++ (big_endian 4 size ++ big_endian 4 0)))

unfoldable mutual
  pub wire : OidMap → (t : PgType) → El t → List ℕ
  wire oids (integral o w) v = big_endian w v
  wire oids (boolean o) v = (if v then 1 else 0) ∷ []
  wire oids (text o) v = v
  wire oids (versioned o) v = 1 ∷ v
  wire oids (array o c p t) v =
      array_header (type_oid oids t) (length v) ++ data_frames p (wire oids t) v
  wire oids (composite o fs) v = big_endian 4 (fields_number fs) ++ wire_fields oids fs v

  pub wire_fields : OidMap → (fs : Fields) → Els fs → List ℕ
  wire_fields oids end v = []
  wire_fields oids (field p t fs) v =
      big_endian 4 (type_oid oids t) ++ (data_frame p (wire oids t) v.0 ++ wire_fields oids fs v.1)

-- `P` of the object that a slot holds, if it is not null.
abbrev pub Held : (p : Presence) {A : Type 0} → (A → Type 0) → Slot p A → Type 0
Held required P v = P v
Held nullable P none = Unit
Held nullable P (some v) = P v

-- Either no element is null, or each is.
abbrev pub IsUniform : (p : Presence) (A : Type 0) → List (Slot p A) → Type 0
IsUniform p A vs = (b : Bool) × All (λ v. is_null p A v ≡ b) vs

abbrev pub IsUniformIf : Bool → (p : Presence) (A : Type 0) → List (Slot p A) → Type 0
IsUniformIf true p A vs = IsUniform p A vs
IsUniformIf false p A vs = Unit

-- The sizes fit a `size_type`, and the elements of an array of static size are uniform.
abbrev mutual
  pub IsSendable : OidMap → (t : PgType) → El t → Type 0
  IsSendable oids (integral o w) v = Unit
  IsSendable oids (boolean o) v = Unit
  IsSendable oids (text o) v = Unit
  IsSendable oids (versioned o) v = Unit
  IsSendable oids (array o c p t) v =
      All (Held p (λ x. IsSendable oids t x × (length (wire oids t x) < 2 ^ 31))) v
      × (length v < 2 ^ 31)
      × IsUniformIf (is_static_size t) p (El t) v
  IsSendable oids (composite o fs) v = AreSendable oids fs v

  pub AreSendable : OidMap → (fs : Fields) → Els fs → Type 0
  AreSendable oids end v = Unit
  AreSendable oids (field p t fs) v =
      Held p (λ x. IsSendable oids t x × (length (wire oids t x) < 2 ^ 31)) v.0
      × AreSendable oids fs v.1

pub Held-map :
    {A : Type 0} {P Q : A → Type 0} (p : Presence) (v : Slot p A)
    → ((a : A) → P a → Q a)
    → Held p P v
    → Held p Q v
Held-map required v f h = f v h
Held-map nullable none f h = tt
Held-map nullable (some v) f h = f v h

pub All-map :
    {A : Type 0} {P Q : A → Type 0} (vs : List A) → ((a : A) → P a → Q a) → All P vs → All Q vs
All-map [] f h = tt
All-map (v ∷ vs) f h = (f v h.0, All-map vs f h.1)
