-- ===== src/Provider/Least.antt =====
-- connector.h: bounds within bounds.
use ozo_pg.Base.{
  ℕ, ◌≡◌, refl, sym, ◌∙◌, ◌⊎◌, inl, inr, List, [], ◌∷◌, ◌++◌, Option, true, false, true≢false,
  Bool-cases, arith,
}
use ozo_pg.Base.Int.{ℤ, pos, negsuc, less}
use ozo_pg.Error.{ErrorCode}
use ozo_pg.Deadline.{TimeConstraint, at, within, time_left}
use ozo_pg.Provider.{Provider, source, bound, timeout, async_get_connection, min_duration}

-- A provider with some bounds around it, the outermost first.
abbrev pub bounded : {C : Type 0} → List ℤ → Provider C → Provider C
bounded [] p = p
bounded (d ∷ ds) p = bound (bounded ds p) d

-- The time that a time constraint leaves.
abbrev pub left : TimeConstraint → ℕ → List ℤ
left TimeConstraint.none now = []
left (at t) now = pos (time_left t now) ∷ []
left (within t) now = t ∷ []

abbrev pub IsOneOf : ℤ → List ℤ → Type 0
IsOneOf m [] = ⊥
IsOneOf m (x ∷ xs) = (m ≡ x) ⊎ IsOneOf m xs

abbrev pub IsBelow : ℤ → List ℤ → Type 0
IsBelow m [] = Unit
IsBelow m (x ∷ xs) = (less x m ≡ false) × IsBelow m xs

less_trans : (a b c : ℤ) → less b a ≡ false → less c b ≡ false → less c a ≡ false
less_trans (pos a) (pos b) (pos c) h k = ground arith
less_trans (pos a) (pos b) (negsuc c) h k = absurd (true≢false k)
less_trans (pos a) (negsuc b) c h k = absurd (true≢false h)
less_trans (negsuc a) (pos b) (pos c) h k = refl
less_trans (negsuc a) (pos b) (negsuc c) h k = absurd (true≢false k)
less_trans (negsuc a) (negsuc b) (pos c) h k = refl
less_trans (negsuc a) (negsuc b) (negsuc c) h k = ground arith

less_refl : (a : ℤ) → less a a ≡ false
less_refl (pos a) = ground arith
less_refl (negsuc a) = ground arith

less_asym : (a b : ℤ) → less b a ≡ true → less a b ≡ false
less_asym (pos a) (pos b) h = ground arith
less_asym (pos a) (negsuc b) h = refl
less_asym (negsuc a) (pos b) h = absurd (true≢false (sym h))
less_asym (negsuc a) (negsuc b) h = ground arith

-- The lesser of two is one of them, and above neither.
min_duration_lem :
    (a b : ℤ)
    → ((min_duration a b ≡ a) ⊎ (min_duration a b ≡ b))
      × (less a (min_duration a b) ≡ false)
      × (less b (min_duration a b) ≡ false)
min_duration_lem a b = elim (Bool-cases (less b a)) [
  | inl e ↦ rw e (inr refl, less_asym a b e, less_refl b)
  | inr e ↦ rw e (inl refl, less_refl a, e)
]

one_of :
    (d t : ℤ) (ds : List ℤ) (m : ℤ)
    → (min_duration d t ≡ d) ⊎ (min_duration d t ≡ t)
    → IsOneOf m (min_duration d t ∷ ds)
    → IsOneOf m (t ∷ d ∷ ds)
one_of d t ds m (inl is_d) (inl e) = inr (inl (e ∙ is_d))
one_of d t ds m (inr is_t) (inl e) = inl (e ∙ is_t)
one_of d t ds m which (inr later) = inr (inr later)

module _ {C : Type 0} (clear : C → C) (s : TimeConstraint → Option ErrorCode × C) (now : ℕ) where
  within-least :
      (t : ℤ) (ds : List ℤ)
      → (m : ℤ) × (async_get_connection clear (bounded ds (source s)) (within t) now ≡ s (within m))
        × IsOneOf m (t ∷ ds)
        × IsBelow m (t ∷ ds)
  unfolding async_get_connection timeout
  within-least t [] = (t, refl, inl refl, (less_refl t, tt))
  within-least t (d ∷ ds) =
      let (which, below_d, below_t) = min_duration_lem d t in
      let (m, asked, one, below) = within-least (min_duration d t) ds in
      (
        m,
        asked,
        one_of d t ds m which one,
        (
          less_trans m (min_duration d t) t below.0 below_t,
          (less_trans m (min_duration d t) d below.0 below_d, below.1),
        ),
      )

  -- A source behind some bounds, of which there is one at least, is asked for a connection within a time
  -- that is the least of the bounds and of the time that the time constraint leaves, if it leaves any.
  pub async_get_connection-least :
      (t : TimeConstraint) (d : ℤ) (ds : List ℤ)
      → (m : ℤ) × (async_get_connection clear (bounded (d ∷ ds) (source s)) t now ≡ s (within m))
        × IsOneOf m (left t now ++ (d ∷ ds))
        × IsBelow m (left t now ++ (d ∷ ds))
  unfolding async_get_connection timeout
  async_get_connection-least TimeConstraint.none d ds = within-least d ds
  async_get_connection-least (at t) d ds = within-least (pos (time_left t now)) (d ∷ ds)
  async_get_connection-least (within t) d ds = within-least t (d ∷ ds)
