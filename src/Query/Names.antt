-- ===== src/Query/Names.antt =====
-- Names as texts: membership, and lists in which no name stands twice.
use mathlib.Core.Logic.{◌≢◌}
use ozo_pg.Base.{
  ◌≡◌, refl, ap, sym, ◌∙◌, ◌⊎◌, inl, inr, List, [], ◌∷◌, map, Bool, true, false, ◌||◌, ◌==◌,
  true≢false, ==_refl, ==→eq, Bool-cases,
}
use ozo_pg.Query.{Text, text_eq}

pub text_eq_refl : (s : Text) → text_eq s s ≡ true
text_eq_refl [] = refl
text_eq_refl (a ∷ s) = rw (==_refl a) (text_eq_refl s)

pub text_eq→eq : (s t : Text) → text_eq s t ≡ true → s ≡ t
text_eq→eq [] [] h = refl
text_eq→eq [] (b ∷ t) h = absurd (true≢false (sym h))
text_eq→eq (a ∷ s) [] h = absurd (true≢false (sym h))
text_eq→eq (a ∷ s) (b ∷ t) h = elim (Bool-cases (a == b)) [
  | inl e ↦ let i : a ≡ b = ==→eq a b e in let r : s ≡ t = text_eq→eq s t (rw e at h) in cc
  | inr n ↦ absurd (true≢false (sym (rw n at h)))
]

pub text_eq-false : (s t : Text) → text_eq s t ≡ false → s ≢ t
text_eq-false s t h e = absurd (true≢false (sym (text_eq_refl s) ∙ ap (text_eq s) e ∙ h))

-- `std::unordered_set::count`
unfoldable pub contains : List Text → Text → Bool
contains [] x = false
contains (y ∷ ys) x = text_eq y x || contains ys x

abbrev pub IsIn : {A : Type 0} → A → List A → Type 0
IsIn x [] = ⊥
IsIn x (y ∷ ys) = (y ≡ x) ⊎ IsIn x ys

abbrev pub IsDistinct : List Text → Type 0
IsDistinct [] = Unit
IsDistinct (x ∷ xs) = (IsIn x xs → ⊥) × IsDistinct xs

pub contains-IsIn : (xs : List Text) (x : Text) → contains xs x ≡ true → IsIn x xs
unfolding contains
contains-IsIn [] x h = absurd (true≢false (sym h))
contains-IsIn (y ∷ ys) x h = elim (Bool-cases (text_eq y x)) [
  | inl e ↦ inl (text_eq→eq y x e)
  | inr n ↦ inr (contains-IsIn ys x (rw n at h))
]

pub IsIn-contains : (xs : List Text) (x : Text) → IsIn x xs → contains xs x ≡ true
unfolding contains
IsIn-contains [] x h = absurd h
IsIn-contains (y ∷ ys) x (inl e) = rw (ap (text_eq y) (sym e) ∙ text_eq_refl y) refl
IsIn-contains (y ∷ ys) x (inr h) = elim (Bool-cases (text_eq y x)) [
  | inl e ↦ rw e refl
  | inr n ↦ rw n (IsIn-contains ys x h)
]

pub map-IsIn : {A B : Type 0} (f : A → B) (x : A) (xs : List A) → IsIn x xs → IsIn (f x) (map f xs)
map-IsIn f x [] h = absurd h
map-IsIn f x (y ∷ ys) (inl e) = inl (ap f e)
map-IsIn f x (y ∷ ys) (inr h) = inr (map-IsIn f x ys h)

pub from_map-IsIn :
    {A B : Type 0} (f : A → B) (b : B) (xs : List A)
    → IsIn b (map f xs)
    → (a : A) × IsIn a xs × (f a ≡ b)
from_map-IsIn f b [] h = absurd h
from_map-IsIn f b (y ∷ ys) (inl e) = (y, inl refl, e)
from_map-IsIn f b (y ∷ ys) (inr h) = let (a, i, e) = from_map-IsIn f b ys h in (a, inr i, e)

pub text_eq-ne : (s t : Text) → (s ≡ t → ⊥) → text_eq s t ≡ false
text_eq-ne s t h = elim (Bool-cases (text_eq s t)) [
  | inl e ↦ absurd (h (text_eq→eq s t e))
  | inr f ↦ f
]
