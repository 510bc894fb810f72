-- ===== src/Connection/Message.antt =====
-- impl/connection.h and impl/cancel.h: texts of libpq, cut behind their last character that counts.
use ozo_pg.Base.{
  ℕ, suc, ◌<◌, ◌≡◌, refl, sym, ap, ◌∙◌, subst, inl, inr, List, [], ◌∷◌, ◌++◌, Option, none, some,
  Option-cases, Bool, true, false, true≢false, if◌then◌else◌, ◌==◌, ==→eq, ==_refl, Bool-cases, ltb,
  lt→ltb, length, take, replicate, arith,
}
use ozo_pg.Connection.{Libpq, Connection}

unfoldable pub last_from : Option ℕ → Bool → Option ℕ
last_from (some i) same = some (suc i)
last_from none true = none
last_from none false = some 0

-- `find_last_not_of`: the place of the last character that is not `c`, and `none` for `npos`.
unfoldable pub find_last_not_of : ℕ → List ℕ → Option ℕ
unfolding last_from
find_last_not_of c [] = none
find_last_not_of c (x ∷ v) = last_from (find_last_not_of c v) (x == c)

-- `remove_suffix` of a view, or `clear` and `resize` of a string.
unfoldable pub cut_at : Option ℕ → List ℕ → List ℕ
cut_at none v = []
cut_at (some pos) v = if ltb pos (length v) then take (suc pos) v else v

unfoldable pub cut : ℕ → List ℕ → List ℕ
unfolding find_last_not_of cut_at
cut c v = cut_at (find_last_not_of c v) v

unfoldable pub connection_error_message : Libpq → Option ℕ → List ℕ
unfolding cut
connection_error_message pq handle = cut b' ' (pq.error_message handle)

-- `error_message`: a connection that is null has none.
unfoldable pub error_message : Libpq → Option Connection → List ℕ
unfolding connection_error_message
error_message pq none = []
error_message pq (some c) = connection_error_message pq c.handle

-- A text that is another one and some characters `c` behind it, and that other one does not end in `c`.
abbrev pub IsCut : ℕ → List ℕ → List ℕ → Type 0
IsCut c v r = ((n : ℕ) × (v ≡ r ++ replicate n c)) × ((s : List ℕ) → r ≡ s ++ (c ∷ []) → ⊥)

find-bound : (c : ℕ) (v : List ℕ) (i : ℕ) → find_last_not_of c v ≡ some i → i < length v
unfolding find_last_not_of last_from
find-bound c [] i h = absurd cc
find-bound c (x ∷ v) i h = elim (Option-cases (find_last_not_of c v)) [
  | inr (j, e) ↦
      let b = find-bound c v j e in
      let g : some (suc j) ≡ some i = rw e at h in let k : suc j ≡ i = cc in omega (arith, b, k)
  | inl e ↦ elim (Bool-cases (x == c)) [
    | inl same ↦ absurd (let g : none ≡ some i = rw (e, same) at h in cc)
    | inr other ↦
        let g : some 0 ≡ some i = rw (e, other) at h in let k : 0 ≡ i = cc in omega (arith, k)
  ]
]

none-replicate : (c : ℕ) (v : List ℕ) → find_last_not_of c v ≡ none → (n : ℕ) × (v ≡ replicate n c)
unfolding find_last_not_of last_from
none-replicate c [] h = (0, refl)
none-replicate c (x ∷ v) h = elim (Option-cases (find_last_not_of c v)) [
  | inr (j, e) ↦ absurd (let g : some (suc j) ≡ none = rw e at h in cc)
  | inl e ↦ elim (Bool-cases (x == c)) [
    | inl same ↦
        let (n, eq) = none-replicate c v e in
        let xc : x ≡ c = ==→eq x c same in (suc n, ap (λ y. y ∷ v) xc ∙ ap (◌∷◌ c) eq)
    | inr other ↦ absurd (let g : some 0 ≡ none = rw (e, other) at h in cc)
  ]
]

not_nil : (s : List ℕ) (c : ℕ) → [] ≡ s ++ (c ∷ []) → ⊥
not_nil [] c e = cc
not_nil (x ∷ s) c e = cc

-- One more character in front.
ends_not :
    (c x : ℕ) (r : List ℕ)
    → (r ≡ [] → x ≡ c → ⊥)
    → ((s : List ℕ) → r ≡ s ++ (c ∷ []) → ⊥)
    → (s : List ℕ) → x ∷ r ≡ s ++ (c ∷ [])
    → ⊥
ends_not c x r first rest [] e = let a : r ≡ [] = cc in let b : x ≡ c = cc in first a b
ends_not c x r first rest (y ∷ s) e = let a : r ≡ s ++ (c ∷ []) = cc in rest s a

take-nil : (i : ℕ) (v : List ℕ) → 0 < length v → take (suc i) v ≡ [] → ⊥
take-nil i [] h e = omega (arith, h)
take-nil i (x ∷ v) h e = cc

some-IsCut :
    (c : ℕ) (v : List ℕ) (i : ℕ) → find_last_not_of c v ≡ some i → IsCut c v (take (suc i) v)
unfolding find_last_not_of last_from
some-IsCut c [] i h = absurd cc
some-IsCut c (x ∷ v) i h = elim (Option-cases (find_last_not_of c v)) [
  | inr (j, e) ↦
      let b = find-bound c v j e in
      let ((n, split), out) = some-IsCut c v j e in
      let g : some (suc j) ≡ some i = rw e at h in
      let k : suc j ≡ i = cc in
      subst (λ m. IsCut c (x ∷ v) (take (suc m) (x ∷ v))) k
        (
          (n, ap (◌∷◌ x) split),
          ends_not c x (take (suc j) v) (λ z. λ _. take-nil j v (omega (arith, b)) z) out,
        )
  | inl e ↦ elim (Bool-cases (x == c)) [
    | inl same ↦ absurd (let g : none ≡ some i = rw (e, same) at h in cc)
    | inr other ↦
        let g : some 0 ≡ some i = rw (e, other) at h in
        let k : 0 ≡ i = cc in
        let (n, split) = none-replicate c v e in
        subst (λ m. IsCut c (x ∷ v) (take (suc m) (x ∷ v))) k
          (
            (n, ap (◌∷◌ x) split),
            ends_not c x [] (λ _. λ y. true≢false (sym (==_refl x) ∙ ap (λ z. x == z) y ∙ other))
                (λ s. not_nil s c),
          )
  ]
]

pub cut-IsCut : (c : ℕ) (v : List ℕ) → IsCut c v (cut c v)
unfolding cut cut_at
cut-IsCut c v = elim (Option-cases (find_last_not_of c v)) [
  | inl e ↦ rw e (none-replicate c v e, λ s. λ h. not_nil s c h)
  | inr (i, e) ↦ rw (e, lt→ltb i (length v) (find-bound c v i e)) (some-IsCut c v i e)
]

-- The message of an error of a connection is what libpq says of its handle without the spaces at the end,
-- and ends in no space. A connection that is null has no message.
error_message-IsCut :
    (pq : Libpq) (c : Connection)
    → IsCut b' ' (pq.error_message c.handle) (error_message pq (some c))
      × (error_message pq none ≡ [])
unfolding error_message connection_error_message
error_message-IsCut pq c = (cut-IsCut b' ' (pq.error_message c.handle), refl)
