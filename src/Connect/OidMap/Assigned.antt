-- ===== src/Connect/OidMap/Assigned.antt =====
-- impl/request_oid_map.h: the oids that a map has once the connection has been made.
use ozo_pg.Base.{
  ℕ, suc, ◌↔◌, ◌≡◌, refl, sym, ap, ◌∙◌, subst, inl, inr, List, [], ◌∷◌, Option, none, some, true,
  false, true≢false, ◌==◌, ==→eq, ==_refl, ==-false_of_ne, Bool-cases, length, arith,
}
use ozo_pg.Error.{ErrorCode}
use ozo_pg.Io.Types.{OidMap}
use ozo_pg.Query.Names.{IsIn}
use ozo_pg.Connect.OidMap.{
  set_type_oid, OidMapT, OidFailure, length_error, invalid_argument, set_each, set_oid_map,
  on_failure, on_oids, on_connected, connected_at, connected_with_oids,
}

-- Each key has the oid at its place among the results, and none of these is null.
abbrev pub AreAssigned : OidMap → List ℕ → List ℕ → Type 0
AreAssigned oids [] [] = Unit
AreAssigned oids [] (r ∷ rs) = ⊥
AreAssigned oids (k ∷ ks) [] = ⊥
AreAssigned oids (k ∷ ks) (r ∷ rs) = (oids k ≡ r) × (r ≡ 0 → ⊥) × AreAssigned oids ks rs

abbrev pub AreDistinct : List ℕ → Type 0
AreDistinct [] = Unit
AreDistinct (k ∷ ks) = (IsIn k ks → ⊥) × AreDistinct ks

set_each-other :
    (ks rs : List ℕ) (oids : OidMap) (k : ℕ) → (IsIn k ks → ⊥) → (set_each ks rs oids).0 k ≡ oids k
unfolding set_each set_type_oid
set_each-other [] rs oids k h = refl
set_each-other (j ∷ ks) [] oids k h = refl
set_each-other (j ∷ ks) (r ∷ rs) oids k h = elim (Bool-cases (r == 0)) [
  | inl z ↦ rw z refl
  | inr n ↦ rw n (
      set_each-other ks rs (set_type_oid j r oids) k (λ i. h (inr i))
      ∙ rw (==-false_of_ne k j (λ e. h (inl (sym e)))) refl)
]

set_each-next :
    (k r : ℕ) (ks rs : List ℕ) (oids : OidMap)
    → (r == 0) ≡ false
    → set_each (k ∷ ks) (r ∷ rs) oids ≡ set_each ks rs (set_type_oid k r oids)
unfolding set_each
set_each-next k r ks rs oids n = rw n refl

set_each-AreAssigned :
    (ks rs : List ℕ) (oids : OidMap)
    → AreDistinct ks
    → length ks ≡ length rs
    → (set_each ks rs oids).1 ≡ none
    → AreAssigned (set_each ks rs oids).0 ks rs
unfolding set_each set_type_oid
set_each-AreAssigned [] [] oids d l h = tt
set_each-AreAssigned [] (r ∷ rs) oids d l h = absurd (omega (arith, l))
set_each-AreAssigned (k ∷ ks) [] oids d l h = absurd (omega (arith, l))
set_each-AreAssigned (k ∷ ks) (r ∷ rs) oids (out, d) l h = elim (Bool-cases (r == 0)) [
  | inl z ↦ absurd (let g : some (invalid_argument k) ≡ none = rw z at h in cc)
  | inr n ↦
      let next = set_each-next k r ks rs oids n in
      subst (λ p. AreAssigned p.0 (k ∷ ks) (r ∷ rs)) (sym next)
        (
          set_each-other ks rs (set_type_oid k r oids) k out ∙ rw (==_refl k) refl,
          λ e. true≢false (sym (==_refl r) ∙ ap (λ x. r == x) e ∙ n),
          set_each-AreAssigned ks rs (set_type_oid k r oids) d (omega (arith, l))
              (sym (ap (λ (p : OidMap × Option OidFailure). p.1) next) ∙ h),
        )
]

set_oid_map-AreAssigned :
    (m : OidMapT) (res : List ℕ)
    → AreDistinct m.keys
    → (set_oid_map m res).1 ≡ none
    → AreAssigned (set_oid_map m res).0.impl m.keys res × ((set_oid_map m res).0.keys ≡ m.keys)
unfolding set_oid_map
set_oid_map-AreAssigned m res d h = elim (Bool-cases (length m.keys == length res)) [
  | inl same ↦ rw same (
    set_each-AreAssigned m.keys res m.impl d (==→eq (length m.keys) (length res) same)
        (rw same at h),
    refl,
  )
  | inr other ↦ absurd (let g : some length_error ≡ none = rw other at h in cc)
]

on_failure-none : (o : Option OidFailure) → on_failure o ≡ none → o ≡ none
unfolding on_failure
on_failure-none none h = refl
on_failure-none (some f) h = absurd cc

set_each-none :
    (ks rs : List ℕ) (oids assigned : OidMap)
    → AreAssigned assigned ks rs
    → (set_each ks rs oids).1 ≡ none
unfolding set_each
set_each-none [] [] oids assigned h = refl
set_each-none [] (r ∷ rs) oids assigned h = absurd h
set_each-none (k ∷ ks) [] oids assigned h = absurd h
set_each-none (k ∷ ks) (r ∷ rs) oids assigned (e, nonzero, h) =
    rw (==-false_of_ne r 0 nonzero) (set_each-none ks rs (set_type_oid k r oids) assigned h)

AreAssigned-length :
    (ks rs : List ℕ) (oids : OidMap) → AreAssigned oids ks rs → length ks ≡ length rs
AreAssigned-length [] [] oids h = refl
AreAssigned-length [] (r ∷ rs) oids h = absurd h
AreAssigned-length (k ∷ ks) [] oids h = absurd h
AreAssigned-length (k ∷ ks) (r ∷ rs) oids (e, nonzero, h) = ap suc (AreAssigned-length ks rs oids h)

set_oid_map-none :
    (m : OidMapT) (res : List ℕ) (assigned : OidMap)
    → AreAssigned assigned m.keys res
    → (set_oid_map m res).1 ≡ none
unfolding set_oid_map
set_oid_map-none m res assigned h =
    let l = AreAssigned-length m.keys res assigned h in
    let same : (length m.keys == length res) ≡ true =
      ap (λ n. length m.keys == n) (sym l) ∙ ==_refl (length m.keys) in
    rw same (set_each-none m.keys res m.impl assigned h)

pub on_oids-AreAssigned :
    (ec : Option ErrorCode) (m : OidMapT) (res : List ℕ)
    → AreDistinct m.keys
    → (on_oids ec m res).2 ≡ none
    → (ec ≡ none) × AreAssigned (on_oids ec m res).0.impl m.keys res
unfolding on_oids
on_oids-AreAssigned (some ec) m res d h = absurd cc
on_oids-AreAssigned none m res d h =
    (refl, (set_oid_map-AreAssigned m res d (on_failure-none (set_oid_map m res).1 h)).0)

pub on_oids-keys :
    (ec : Option ErrorCode) (m : OidMapT) (res : List ℕ)
    → (let m' = (on_oids ec m res).0 in m'.keys) ≡ m.keys
unfolding on_oids set_oid_map
on_oids-keys (some ec) m res = refl
on_oids-keys none m res = elim (Bool-cases (length m.keys == length res)) [
  | inl same ↦ rw same refl
  | inr other ↦ rw other refl
]

on_oids-none :
    (m : OidMapT) (res : List ℕ)
    → AreAssigned (on_oids none m res).0.impl m.keys res
    → (on_oids none m res).2 ≡ none
unfolding on_oids on_failure
on_oids-none m res h = ap on_failure (set_oid_map-none m res (set_oid_map m res).0.impl h)

-- The connection has been made, and where types are registered the request for their oids has succeeded and
-- each of them, in the order of the keys, has the oid at its place among the results, none of which is null.
abbrev pub IsConnected : List ℕ → Option ErrorCode → Option ErrorCode × List ℕ → OidMap → Type 0
IsConnected [] ec request oids = ec ≡ none
IsConnected (k ∷ ks) ec request oids =
    (ec ≡ none) × (request.0 ≡ none) × AreAssigned oids (k ∷ ks) request.1

connected_at_iff :
    (keys : List ℕ) (ec : Option ErrorCode) (request : Option ErrorCode × List ℕ) (m : OidMapT)
    → m.keys ≡ keys
    → AreDistinct keys
    → ((connected_at keys ec request m).2 ≡ none)
      ↔ IsConnected keys ec request (connected_at keys ec request m).0.impl
unfolding connected_at on_connected
connected_at_iff [] ec request m e d = (λ h. h, λ h. h)
connected_at_iff (k ∷ ks) (some ec) request m e d =
    (λ h. absurd cc, λ h. absurd (let g = h.0 in cc))
connected_at_iff (k ∷ ks) none (ec, res) m e d = (
  λ h.
      let (r, a) = on_oids-AreAssigned ec m res (subst AreDistinct (sym e) d) h in
      (refl, r, subst (λ l. AreAssigned (on_oids ec m res).0.impl l res) e a),
  λ h.
      let (_, r, a) = h in
      ap (λ x. (on_oids x m res).2) r
      ∙ on_oids-none m res (
          subst (λ l. AreAssigned (on_oids none m res).0.impl l res) (sym e)
            (subst (λ x. AreAssigned (on_oids x m res).0.impl (k ∷ ks) res) r a)),
)

-- Where the keys of the map are distinct, the handler of a connect operation is called without an error
-- exactly when the connection has been made and, if types are registered, the request for their oids has
-- succeeded with as many results as types, and each type, in the order of the keys, has come to have in the
-- map the oid at its place among the results, none of which is null.
pub connected_with_oids-IsConnected_iff :
    (ec : Option ErrorCode) (request : Option ErrorCode × List ℕ) (m : OidMapT)
    → AreDistinct m.keys
    → ((connected_with_oids ec request m).2 ≡ none)
      ↔ IsConnected m.keys ec request (connected_with_oids ec request m).0.impl
unfolding connected_with_oids
connected_with_oids-IsConnected_iff ec request m d = connected_at_iff m.keys ec request m refl d
