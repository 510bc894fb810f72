-- ===== src/Error/Sqlstate/Class.antt =====
-- error.h, `sqlstate::impl::category::equivalent`: a code belongs to the class conditions.
use ozo_pg.Base.{
  ℕ, ◌+◌, ◌*◌, ◌/◌, ◌≡◌, ◌↔◌, inl, inr, List, [], ◌∷◌, Bool, true, false, ◌&&◌, ◌||◌, ltb, leb,
  ◌==◌, if◌then◌else◌, All, Bool-cases, arith,
}

abbrev pub class_width : ℕ
class_width = 46656

-- The cases of the switch.
abbrev pub class_conditions : List ℕ
class_conditions =
    46656 ∷ 93312 ∷ 139968 ∷ 373248 ∷ 419904 ∷ 466560 ∷ 513216 ∷ 699840 ∷ 979776 ∷ 1166400 ∷ 1632960
    ∷ 3359232 ∷ 3405888 ∷ 3452544 ∷ 3499200 ∷ 3545856 ∷ 3592512 ∷ 3639168 ∷ 3685824 ∷ 3732480
    ∷ 3872448 ∷ 3965760 ∷ 4059072 ∷ 5225472 ∷ 5412096 ∷ 5458752 ∷ 5552064 ∷ 5645376 ∷ 5738688
    ∷ 6718464 ∷ 6811776 ∷ 6905088 ∷ 8538048 ∷ 8584704 ∷ 8631360 ∷ 8724672 ∷ 8771328 ∷ 11850624
    ∷ 25194240 ∷ 29999808 ∷ 41990400 ∷ 56966976 ∷ []

unfoldable pub contains : List ℕ → ℕ → Bool
contains [] n = false
contains (m ∷ ms) n = n == m || contains ms n

unfoldable pub value_in : ℕ → ℕ → Bool
value_in v cond = leb cond v && ltb v (cond + class_width)

-- What the switch answers for a code of this category, with the answer of the base class otherwise.
unfoldable pub class_equivalent : ℕ → ℕ → Bool → Bool
class_equivalent v condition base =
    if contains class_conditions condition then value_in v condition else base

abbrev IsClass : ℕ → Type 0
IsClass c = c ≡ class_width * (c / class_width)

-- Each case is the first code of a class: its last three digits are 0.
class_conditions-IsClass : All IsClass class_conditions
class_conditions-IsClass = omega arith

IsClass-of_contains : (ms : List ℕ) (n : ℕ) → All IsClass ms → contains ms n ≡ true → IsClass n
unfolding contains
IsClass-of_contains [] n h e = cc
IsClass-of_contains (m ∷ ms) n (hm, hms) e = elim (Bool-cases (n == m)) [
  | inl here ↦ ground (arith, hm, here)
  | inr there ↦ IsClass-of_contains ms n hms (rw there at e)
]

value_in_iff : (v c : ℕ) → IsClass c → (value_in v c ≡ true) ↔ (v / class_width ≡ c / class_width)
unfolding value_in
value_in_iff v c h = (λ e. ground (arith, h), λ e. ground (arith, h))

-- A code matches a class condition exactly if both have the same first two digits in base 36, whatever
-- the base class would answer.
class_equivalent_iff :
    (v condition : ℕ) (base : Bool)
    → contains class_conditions condition ≡ true
    → (class_equivalent v condition base ≡ true) ↔ (v / class_width ≡ condition / class_width)
unfolding class_equivalent
class_equivalent_iff v condition base h = rw h (
    value_in_iff v condition
      (IsClass-of_contains class_conditions condition class_conditions-IsClass h))

-- No code matches two of the class conditions.
class_equivalent_unique :
    (v c d : ℕ) (base : Bool)
    → contains class_conditions c ≡ true
    → contains class_conditions d ≡ true
    → class_equivalent v c base ≡ true
    → class_equivalent v d base ≡ true
    → c ≡ d
class_equivalent_unique v c d base hc hd ec ed =
    let ic = IsClass-of_contains class_conditions c class_conditions-IsClass hc in
    let id = IsClass-of_contains class_conditions d class_conditions-IsClass hd in
    let qc = (class_equivalent_iff v c base hc).0 ec in
    let qd = (class_equivalent_iff v d base hd).0 ed in omega arith
