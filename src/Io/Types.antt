-- ===== src/Io/Types.antt =====
-- type_traits.h: the C++ types that the input and output templates are instantiated at, as data, and
-- their values. A template's dispatch on a type is a match on `PgType`.
use ozo_pg.Base.{ℕ, List, [], Option, none, some, Bool, false, ◌+◌, replicate}

-- `T`, or a #Nullable over it (`std::optional<T>`, a smart pointer).
pub data Presence : Type 0 where
  required nullable : Presence

-- The values of a type of that presence, over those of the unwrapped type.
abbrev pub Slot : Presence → Type 0 → Type 0
Slot required A = A
Slot nullable A = Option A

-- `is_null`: an object of a type that is not #Nullable never is.
unfoldable pub is_null : (p : Presence) (A : Type 0) → Slot p A → Bool
is_null required A v = false
is_null nullable A none = Bool.true
is_null nullable A (some v) = false

-- The `oid` of a type's traits: a constant for a built-in type, a key of the map for a custom one.
pub data TypeOid : Type 0 where
  built_in custom : ℕ → TypeOid

-- A map from the keys of the custom types to their oids.
abbrev pub OidMap : Type 0
OidMap = ℕ → ℕ

-- An array is a container that can be resized, as `std::vector`, or a `std::array` of fixed size.
pub data Container : Type 0 where
  resizable : Container
  fixed : ℕ → Container

-- An integral or floating point type has its width in bytes. A text is a type of dynamic size whose
-- bytes are sent as they are; a versioned one is `jsonb` or `ltree`.
mutual
  pub data PgType : Type 0 where
    integral : TypeOid → ℕ → PgType
    boolean : TypeOid → PgType
    text : TypeOid → PgType
    versioned : TypeOid → PgType
    array : TypeOid → Container → Presence → PgType → PgType
    composite : TypeOid → Fields → PgType

  pub data Fields : Type 0 where
    end : Fields
    field : Presence → PgType → Fields → Fields

-- The C++ values of a type. An integer or a floating point number is its bit pattern.
abbrev mutual
  pub El : PgType → Type 0
  El (integral o w) = ℕ
  El (boolean o) = Bool
  El (text o) = List ℕ
  El (versioned o) = List ℕ
  El (array o c p t) = List (Slot p (El t))
  El (composite o fs) = Els fs

  pub Els : Fields → Type 0
  Els end = Unit {0}
  Els (field p t fs) = Slot p (El t) × Els fs

abbrev pub oid_of : PgType → TypeOid
oid_of (integral o w) = o
oid_of (boolean o) = o
oid_of (text o) = o
oid_of (versioned o) = o
oid_of (array o c p t) = o
oid_of (composite o fs) = o

unfoldable pub type_oid : OidMap → PgType → ℕ
type_oid oids t = elim (oid_of t) [ built_in n ↦ n | custom k ↦ oids k ]

-- Only the types with a size among their traits are of static size.
abbrev pub is_static_size : PgType → Bool
is_static_size (integral o w) = Bool.true
is_static_size (boolean o) = Bool.true
is_static_size (text o) = false
is_static_size (versioned o) = false
is_static_size (array o c p t) = false
is_static_size (composite o fs) = false

abbrev pub fields_number : Fields → ℕ
fields_number end = 0
fields_number (field p t fs) = 1 + fields_number fs

-- A value-initialised object, `T{}`.
abbrev pub fresh_slot : (p : Presence) {A : Type 0} → A → Slot p A
fresh_slot required a = a
fresh_slot nullable a = none

abbrev pub fresh_array : Container → {A : Type 0} → A → List A
fresh_array resizable a = []
fresh_array (fixed n) a = replicate n a

abbrev mutual
  pub fresh : (t : PgType) → El t
  fresh (integral o w) = 0
  fresh (boolean o) = false
  fresh (text o) = []
  fresh (versioned o) = []
  fresh (array o c p t) = fresh_array c (fresh_slot p (fresh t))
  fresh (composite o fs) = fresh_fields fs

  pub fresh_fields : (fs : Fields) → Els fs
  fresh_fields end = tt
  fresh_fields (field p t fs) = (fresh_slot p (fresh t), fresh_fields fs)
