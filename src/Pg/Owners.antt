-- ===== src/Pg/Owners.antt =====
-- pg/definitions.h: which type an object identifier belongs to.
use Prim.Native.String.{String}
use text.Mathlib.Text.{◌==◌ as str_eq}
use text.Mathlib.TextEquality.{eq_iff}
use mathlib.Core.Option.{some-injective, none-ne-some}
use ozo_pg.Base.{
  ℕ, ◌≡◌, ◌≢◌, refl, sym, ap, ◌∙◌, List, [], ◌∷◌, Option, none, some, Bool, true, false, ◌&&◌, ◌==◌,
  if◌then◌else◌, Bool-cases, Option-cases, &&-split, subst, inl, inr,
}
use ozo_pg.Pg.{definitions, find_definition, type_definition, array_definition, array_of}
use ozo_pg.Pg.Definition.{TypeDefinition, ArrayDefinition}

-- A built-in type, or its array.
pub data Named : Type 0 where
  of_type of_array : String → Named

abbrev oid_of_type : Option TypeDefinition → Option ℕ
oid_of_type none = none
oid_of_type (some d) = some d.oid

abbrev oid_of_array : Option ArrayDefinition → Option ℕ
oid_of_array none = none
oid_of_array (some d) = some d.oid

abbrev pub oid_named : Named → Option ℕ
oid_named (of_type name) = oid_of_type (type_definition name)
oid_named (of_array name) = oid_of_array (array_definition name)

-- The first that has an object identifier, in the order of the definitions.
abbrev owned_by : ℕ → Option ℕ → Bool
owned_by oid none = false
owned_by oid (some o) = o == oid

abbrev owner_among : ℕ → List TypeDefinition → Option Named
owner_among oid [] = if 2287 == oid then some (of_array "record") else none
owner_among oid (d ∷ ds) =
    if d.oid == oid
    then some (of_type d.name)
    else if owned_by oid d.array_oid
    then some (of_array d.name)
    else owner_among oid ds

owner : ℕ → Option Named
owner oid = owner_among oid definitions

abbrev is_type : String → Option Named → Bool
is_type name none = false
is_type name (some (of_type n)) = str_eq n name
is_type name (some (of_array n)) = false

abbrev is_array : String → Option Named → Bool
is_array name none = false
is_array name (some (of_type n)) = false
is_array name (some (of_array n)) = str_eq n name

abbrev owns_array : String → Option ℕ → Bool
owns_array name none = true
owns_array name (some oid) = is_array name (owner oid)

owns : TypeDefinition → Bool
owns d = is_type d.name (owner d.oid) && owns_array d.name d.array_oid

all_own : List TypeDefinition → Bool
all_own [] = true
all_own (d ∷ ds) = owns d && all_own ds

all_own_lem : all_own definitions ≡ true
unfolding all_own owns owner definitions
all_own_lem = refl

owns_found :
    (ds : List TypeDefinition) (name : String) (d : TypeDefinition)
    → all_own ds ≡ true
    → find_definition name ds ≡ some d
    → (owns d ≡ true) × (d.name ≡ name)
unfolding all_own
owns_found [] name d all found = cc
owns_found (e ∷ ds) name d all found = elim (Bool-cases (str_eq e.name name)) [
  | inl here ↦
      let same = some-injective _ _ (rw here at found) in
      (
        ap owns (sym same) ∙ (&&-split (owns e) (all_own ds) all).0,
        ap (λ x. x.name) (sym same) ∙ (eq_iff e.name name).0 here,
      )
  | inr there ↦ owns_found ds name d (&&-split (owns e) (all_own ds) all).1 (rw there at found)
]

type_owns :
    (name : String) (d : TypeDefinition)
    → type_definition name ≡ some d
    → (owns d ≡ true) × (d.name ≡ name)
unfolding type_definition
type_owns name d found = owns_found definitions name d all_own_lem found

owner-is_type : (name : String) (o : Option Named) → is_type name o ≡ true → o ≡ some (of_type name)
owner-is_type name none h = cc
owner-is_type name (some (of_type n)) h = ap (λ x. some (of_type x)) ((eq_iff n name).0 h)
owner-is_type name (some (of_array n)) h = cc

owner-is_array :
    (name : String) (o : Option Named) → is_array name o ≡ true → o ≡ some (of_array name)
owner-is_array name none h = cc
owner-is_array name (some (of_type n)) h = cc
owner-is_array name (some (of_array n)) h = ap (λ x. some (of_array x)) ((eq_iff n name).0 h)

record_owner : owner 2287 ≡ some (of_array "record")
unfolding owner definitions
record_owner = refl

oid_of_type-owner :
    (name : String) (o : ℕ) → oid_named (of_type name) ≡ some o → owner o ≡ some (of_type name)
unfolding owns
oid_of_type-owner name o h = elim (Option-cases (type_definition name)) [
  | inl none_is ↦ absurd (none-ne-some o (rw none_is at h))
  | inr (d, found) ↦
      let (owned, named) = type_owns name d found in
      let same : d.oid ≡ o = some-injective _ _ (rw found at h) in
      rw (← same) (
        owner-is_type name (owner d.oid)
          (subst (λ n. is_type n (owner d.oid) ≡ true) named (&&-split _ _ owned).0))
]

owner-array_of :
    (d : TypeDefinition) (name : String) (o : ℕ)
    → (owns d ≡ true) × (d.name ≡ name)
    → oid_of_array (array_of d) ≡ some o
    → owner o ≡ some (of_array name)
unfolding owns
owner-array_of d name o (owned, named) h = elim (Option-cases d.array_oid) [
  | inl none_is ↦ absurd (none-ne-some o (rw none_is at h))
  | inr (a, is) ↦
      let same : a ≡ o = some-injective _ _ (rw is at h) in
      let own : is_array d.name (owner a) ≡ true =
        rw is at
          (&&-split (is_type d.name (owner d.oid)) (owns_array d.name d.array_oid) owned).1 in
      rw (← same)
        (owner-is_array name (owner a) (subst (λ n. is_array n (owner a) ≡ true) named own))
]

oid_of_array-owner :
    (name : String) (o : ℕ) → oid_named (of_array name) ≡ some o → owner o ≡ some (of_array name)
unfolding array_definition owns
oid_of_array-owner name o h = elim (Bool-cases (str_eq name "record")) [
  | inl is ↦
      let same : ◌≡◌ {A = ℕ} 2287 o = some-injective _ _ (rw is at h) in
      rw (← same, (eq_iff name "record").0 is) record_owner
  | inr no_record ↦ elim (Option-cases (type_definition name)) [
    | inl none_is ↦ absurd (none-ne-some o (rw (no_record, none_is) at h))
    | inr (d, found) ↦ owner-array_of d name o (type_owns name d found) (rw (no_record, found) at h)
  ]
]

oid_named-owner : (a : Named) (o : ℕ) → oid_named a ≡ some o → owner o ≡ some a
oid_named-owner (of_type name) o h = oid_of_type-owner name o h
oid_named-owner (of_array name) o h = oid_of_array-owner name o h

pub oid_named-injective :
    (a b : Named) (o : ℕ) → oid_named a ≡ some o → oid_named b ≡ some o → a ≡ b
oid_named-injective a b o ha hb =
    some-injective a b (sym (oid_named-owner a o ha) ∙ oid_named-owner b o hb)

-- Two different built-in types, an array being a type of its own, have different object identifiers.
pub oid_named-distinct :
    (a b : Named) (o o' : ℕ) → oid_named a ≡ some o → oid_named b ≡ some o' → a ≢ b → o ≢ o'
oid_named-distinct a b o o' ha hb ne same =
    ne (oid_named-injective a b o ha (hb ∙ ap some (sym same)))
