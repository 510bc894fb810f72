-- ===== src/Failover/RoleBased/Sources.antt =====
-- failover/role_based.h: `role_based_connection_source`, which has a source of connections for each role,
-- and `role_based_connection_provider`.
use ozo_pg.Base.{
  ℕ, ◌≡◌, refl, sym, ap, ◌∙◌, ◌⊎◌, inl, inr, List, [], ◌∷◌, ◌++◌, Option, none, some, Bool, true,
  false, if◌then◌else◌, ◌==◌, ==_refl,
}
use ozo_pg.Deadline.{TimeConstraint}
use ozo_pg.Error.{ErrorCode}
use ozo_pg.Failover.RoleBased.{Role, master, replica, custom}

-- A source of connections, on an executor and a time constraint.
abbrev pub Source : Type 0 → Type 0
Source C = ℕ → TimeConstraint → Option ErrorCode × C

abbrev pub Sources : Type 0 → Type 0
Sources C = List (Role × Source C)

abbrev pub same_role : Role → Role → Bool
same_role master master = true
same_role replica replica = true
same_role (custom n) (custom m) = n == m
same_role _ _ = false

-- `sources_[role]`. What is `none` here and below does not compile.
unfoldable pub source_of : {C : Type 0} → Role → Sources C → Option (Source C)
source_of r [] = none
source_of r ((r', source) ∷ ss) =
    let rest = source_of r ss in if same_role r r' then some source else rest

pub record RoleBasedSource (C : Type 0) : Type 0 where
  pub sources : Sources C
  pub role : Role

abbrev pub has_value : {A : Type 0} → Option A → Bool
has_value none = false
has_value (some x) = true

unfoldable pub is_supported : {C : Type 0} → Role → RoleBasedSource C → Bool
unfolding source_of
is_supported r s = has_value (source_of r s.sources)

unfoldable pub rebind_source : {C : Type 0} → Role → RoleBasedSource C → Option (RoleBasedSource C)
unfolding is_supported
rebind_source r s = if is_supported r s then some (record s { role = r }) else none

unfoldable pub make_role_based_connection_source :
    {C : Type 0} → Role × Source C → Sources C → RoleBasedSource C
make_role_based_connection_source (r, source) ss = record { sources = (r, source) ∷ ss; role = r }

abbrev pub called :
    {C : Type 0} → Option (Source C) → ℕ → TimeConstraint → Option (Option ErrorCode × C)
called none ex t = none
called (some source) ex t = some (source ex t)

-- `operator ()`
unfoldable pub call_source :
    {C : Type 0} → RoleBasedSource C → ℕ → TimeConstraint → Option (Option ErrorCode × C)
unfolding source_of
call_source s ex t = called (source_of s.role s.sources) ex t

pub record RoleBasedProvider (C : Type 0) : Type 0 where
  pub source : RoleBasedSource C
  pub ex : ℕ

unfoldable pub rebind_role :
    {C : Type 0} → Role → RoleBasedProvider C → Option (RoleBasedProvider C)
unfolding rebind_source
rebind_role r p = elim (rebind_source r p.source) [
  | none ↦ none
  | some s ↦ some (record p { source = s })
]

unfoldable pub get_connection :
    {C : Type 0} → RoleBasedProvider C → TimeConstraint → Option (Option ErrorCode × C)
unfolding call_source
get_connection p t = call_source p.source p.ex t

abbrev pub and_then : {A B : Type 0} → Option A → (A → Option B) → Option B
and_then none next = none
and_then (some x) next = next x

-- The roles that a provider is rebound to, one after the other.
unfoldable pub rebind_all :
    {C : Type 0} → List Role → RoleBasedProvider C → Option (RoleBasedProvider C)
unfolding rebind_role
rebind_all [] p = some p
rebind_all (r ∷ rs) p = and_then (rebind_role r p) (rebind_all rs)

-- What a provider gives that has been rebound.
abbrev pub connection_of :
    {C : Type 0} → Option (RoleBasedProvider C) → TimeConstraint → Option (Option ErrorCode × C)
connection_of o t = and_then o (λ p. get_connection p t)

abbrev pub connection_after :
    {C : Type 0} → List Role → RoleBasedProvider C → TimeConstraint → Option (Option ErrorCode × C)
connection_after rs p t = connection_of (rebind_all rs p) t

-- The first pair of a role is the one that counts; a map has one at most.
abbrev pub IsSourceOf : {C : Type 0} → Role → Source C → Sources C → Type 0
IsSourceOf r source [] = ⊥
IsSourceOf r source ((r', source') ∷ ss) =
    ((r ≡ r') × (source ≡ source')) ⊎ ((same_role r r' ≡ false) × IsSourceOf r source ss)

same_role_refl : (r : Role) → same_role r r ≡ true
same_role_refl master = refl
same_role_refl replica = refl
same_role_refl (custom n) = ==_refl n

abbrev pub AreSupported : {C : Type 0} → List Role → Sources C → Type 0
AreSupported [] ss = Unit
AreSupported (r ∷ rs) ss = (has_value (source_of r ss) ≡ true) × AreSupported rs ss

module _ {C : Type 0} where
  source_of_lem :
      (r : Role) (source : Source C) (ss : Sources C)
      → IsSourceOf r source ss
      → source_of r ss ≡ some source
  unfolding source_of
  source_of_lem r source [] h = absurd h
  source_of_lem r source ((r', source') ∷ ss) (inl (same, e)) =
      rw (← same, same_role_refl r) (ap some (sym e))
  source_of_lem r source ((r', source') ∷ ss) (inr (other, h)) =
      rw other (source_of_lem r source ss h)

  abbrev bound_to : Role → RoleBasedProvider C → RoleBasedProvider C
  bound_to r p = let s = p.source in record p { source = record s { role = r } }

  rebind_role_lem :
      (r : Role) (p : RoleBasedProvider C)
      → has_value (source_of r (let s = p.source in s.sources)) ≡ true
      → rebind_role r p ≡ some (bound_to r p)
  unfolding rebind_role rebind_source is_supported
  rebind_role_lem r p h = rw (rebind_role, rebind_source, is_supported, h) refl

  rebind_all-last :
      (rs : List Role) (r : Role) (source : Source C) (p : RoleBasedProvider C) (t : TimeConstraint)
      → AreSupported rs (let s = p.source in s.sources)
      → IsSourceOf r source (let s = p.source in s.sources)
      → connection_after (rs ++ (r ∷ [])) p t ≡ some (source p.ex t)
  unfolding rebind_all get_connection call_source
  rebind_all-last [] r source p t supported h =
      let found = source_of_lem r source (let s = p.source in s.sources) h in
      ap (λ o. connection_of (and_then o (rebind_all [])) t)
        (rebind_role_lem r p (ap has_value found))
      ∙ ap (λ o. called o p.ex t) found
  rebind_all-last (r' ∷ rs) r source p t (supported, more) h =
      ap (λ o. connection_of (and_then o (rebind_all (rs ++ (r ∷ [])))) t)
        (rebind_role_lem r' p supported)
      ∙ rebind_all-last rs r source (bound_to r' p) t more h

  -- A provider of the sources of some roles, rebound to any of these roles one after the other and then to
  -- a role that has a source among them, gets its connection from that source, with its own executor and
  -- the time constraint that is given.
  pub rebind_all-get_connection :
      (first : Role × Source C) (more : Sources C) (ex : ℕ) (rs : List Role) (r : Role)
      (source : Source C) (t : TimeConstraint)
      → AreSupported rs (first ∷ more)
      → IsSourceOf r source (first ∷ more)
      → connection_after
          (rs ++ (r ∷ []))
          (record { source = make_role_based_connection_source first more; ex = ex })
          t
        ≡ some (source ex t)
  unfolding make_role_based_connection_source
  rebind_all-get_connection first more ex rs r source t supported h =
      rebind_all-last rs r source
        (record { source = make_role_based_connection_source first more; ex = ex }) t supported h
