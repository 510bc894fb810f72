-- ===== src/Query/Conf/Checks.antt =====
-- query_conf.h: what `check_for_duplicates` and `check_for_undefined` let through.
use ozo_pg.Base.{
  ◌≡◌, refl, sym, ◌∙◌, subst, ◌⊎◌, inl, inr, ◌↔◌, List, [], ◌∷◌, true≢false, ok, thrown, Bool-cases,
}
use ozo_pg.Query.{Text}
use ozo_pg.Query.Names.{contains, contains-IsIn, IsIn-contains, IsIn, IsDistinct}
use ozo_pg.Query.Conf.{Failure, TypedQuery, check_for_duplicates, check_for_undefined}

-- Names that are distinct, and are not in the set.
abbrev pub IsFresh : List Text → List Text → Type 0
IsFresh set [] = Unit
IsFresh set (n ∷ ns) = (IsIn n set → ⊥) × IsFresh (n ∷ set) ns

check-IsFresh :
    (e : Text → Failure) (set ns names : List Text)
    → check_for_duplicates e set ns ≡ ok names
    → IsFresh set ns
unfolding check_for_duplicates
check-IsFresh e set [] names h = tt
check-IsFresh e set (n ∷ ns) names h = elim (Bool-cases (contains set n)) [
  | inl d ↦ absurd (let i : thrown (e n) ≡ ok names = rw d at h in cc)
  | inr f ↦ (
    λ i. true≢false (sym (IsIn-contains set n i) ∙ f),
    check-IsFresh e (n ∷ set) ns names (rw f at h),
  )
]

IsFresh-check :
    (e : Text → Failure) (set ns : List Text)
    → IsFresh set ns
    → (names : List Text) × (check_for_duplicates e set ns ≡ ok names)
unfolding check_for_duplicates
IsFresh-check e set [] h = (set, refl)
IsFresh-check e set (n ∷ ns) (out, h) = elim (Bool-cases (contains set n)) [
  | inl d ↦ absurd (out (contains-IsIn set n d))
  | inr f ↦ rw f (IsFresh-check e (n ∷ set) ns h)
]

IsFresh-out : (set ns : List Text) (n : Text) → IsFresh set ns → IsIn n ns → IsIn n set → ⊥
IsFresh-out set [] n h i j = i
IsFresh-out set (m ∷ ns) n (out, h) (inl e) j = out (subst (λ x. IsIn x set) (sym e) j)
IsFresh-out set (m ∷ ns) n (out, h) (inr i) j = IsFresh-out (m ∷ set) ns n h i (inr j)

IsFresh-IsDistinct : (set ns : List Text) → IsFresh set ns → IsDistinct ns
IsFresh-IsDistinct set [] h = tt
IsFresh-IsDistinct set (n ∷ ns) (out, h) =
    (λ i. IsFresh-out (n ∷ set) ns n h i (inl refl), IsFresh-IsDistinct (n ∷ set) ns h)

IsDistinct-IsFresh :
    (set ns : List Text)
    → IsDistinct ns
    → ((n : Text) → IsIn n ns → IsIn n set → ⊥)
    → IsFresh set ns
IsDistinct-IsFresh set [] h d = tt
IsDistinct-IsFresh set (n ∷ ns) (out, h) d = (
  d n (inl refl),
  IsDistinct-IsFresh (n ∷ set) ns h (λ m.
      λ i. λ j. elim j [ inl e ↦ out (subst (λ x. IsIn x ns) (sym e) i) | inr k ↦ d m (inr i) k ]),
)

-- A list of names passes the check for duplicates exactly when no name stands in it twice.
pub check_for_duplicates_iff :
    (e : Text → Failure) (ns : List Text)
    → ((names : List Text) × (check_for_duplicates e [] ns ≡ ok names)) ↔ IsDistinct ns
check_for_duplicates_iff e ns = (
  λ p. let (names, h) = p in IsFresh-IsDistinct [] ns (check-IsFresh e [] ns names h),
  λ d. IsFresh-check e [] ns (IsDistinct-IsFresh [] ns d (λ n. λ i. λ j. j)),
)

check-names :
    (e : Text → Failure) (set ns names : List Text) (n : Text)
    → check_for_duplicates e set ns ≡ ok names
    → IsIn n names
    → IsIn n set ⊎ IsIn n ns
unfolding check_for_duplicates
check-names e set [] names n h i = inl (let e' : set ≡ names = cc in subst (IsIn n) (sym e') i)
check-names e set (m ∷ ns) names n h i = elim (Bool-cases (contains set m)) [
  | inl d ↦ absurd (let i : thrown (e m) ≡ ok names = rw d at h in cc)
  | inr f ↦ elim (check-names e (m ∷ set) ns names n (rw f at h) i) [
    | inl (inl k) ↦ inr (inl k)
    | inl (inr k) ↦ inl k
    | inr k ↦ inr (inr k)
  ]
]

-- The names that the check gives are those it was given.
pub check_for_duplicates-IsIn :
    (e : Text → Failure) (ns names : List Text) (n : Text)
    → check_for_duplicates e [] ns ≡ ok names
    → IsIn n names
    → IsIn n ns
check_for_duplicates-IsIn e ns names n h i = elim (check-names e [] ns names n h i) [
  | inl k ↦ absurd k
  | inr k ↦ k
]

pub check_for_undefined-IsIn :
    (qs : List TypedQuery) (definitions : List Text) (q : TypedQuery)
    → check_for_undefined qs definitions ≡ ok tt
    → IsIn q qs
    → IsIn q.name definitions
unfolding check_for_undefined
check_for_undefined-IsIn [] definitions q h i = absurd i
check_for_undefined-IsIn (p ∷ qs) definitions q h i =
    elim (Bool-cases (contains definitions p.name)) [
      | inl c ↦ elim i [
        | inl e ↦
            subst (λ (x : TypedQuery). IsIn x.name definitions) e
              (contains-IsIn definitions p.name c)
        | inr j ↦ check_for_undefined-IsIn qs definitions q (rw c at h) j
      ]
      | inr f ↦ absurd (let t : thrown _ ≡ ok tt = rw f at h in cc)
    ]

check-keeps :
    (e : Text → Failure) (set ns names : List Text) (n : Text)
    → check_for_duplicates e set ns ≡ ok names
    → IsIn n set ⊎ IsIn n ns
    → IsIn n names
unfolding check_for_duplicates
check-keeps e set [] names n h (inl i) = let e' : set ≡ names = cc in subst (IsIn n) e' i
check-keeps e set [] names n h (inr i) = absurd i
check-keeps e set (m ∷ ns) names n h i = elim (Bool-cases (contains set m)) [
  | inl d ↦ absurd (let g : thrown (e m) ≡ ok names = rw d at h in cc)
  | inr f ↦
      check-keeps e (m ∷ set) ns names n (rw f at h)
        (elim i [ inl k ↦ inl (inr k) | inr (inl k) ↦ inl (inl k) | inr (inr k) ↦ inr k ])
]

pub check_for_undefined_ok :
    (qs : List TypedQuery) (definitions : List Text)
    → ((q : TypedQuery) → IsIn q qs → IsIn q.name definitions)
    → check_for_undefined qs definitions ≡ ok tt
unfolding check_for_undefined
check_for_undefined_ok [] definitions h = refl
check_for_undefined_ok (p ∷ qs) definitions h =
    rw (IsIn-contains definitions p.name (h p (inl refl)))
      (check_for_undefined_ok qs definitions (λ q. λ i. h q (inr i)))

-- The names that it was given are those that the check gives.
pub check_for_duplicates_keeps :
    (e : Text → Failure) (ns names : List Text) (n : Text)
    → check_for_duplicates e [] ns ≡ ok names
    → IsIn n ns
    → IsIn n names
check_for_duplicates_keeps e ns names n h i = check-keeps e [] ns names n h (inr i)
