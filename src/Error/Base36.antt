-- ===== src/Error/Base36.antt =====
-- detail/base36.h: `ltob36`.
use ozo_pg.Base.{
  ℕ, zero, suc, ◌+◌, ◌-◌, ◌*◌, ◌/◌, ◌%◌, ◌<◌, ◌≡◌, ap, ◌∙◌, List, [], ◌∷◌, ltb, leb, ◌==◌, ◌&&◌,
  ◌||◌, Bool, true, if◌then◌else◌, All, Bool-cases, inl, inr, ==→eq, arith,
}

-- `d < 10 ? '0' + d : 'A' + d - 10`
unfoldable pub digit_char : ℕ → ℕ
digit_char d = if ltb d 10 then b'0' + d else b'A' + d - 10

-- The `do` loop, which adds the next digit at the end and is reversed when it is over: here the digits
-- are added in front. A number is above the number of its digits, so `i + 1` rounds are enough.
unfoldable pub ltob36_loop : ℕ → ℕ → List ℕ → List ℕ
ltob36_loop zero u out = out
ltob36_loop (suc rounds) u out =
    let out' = digit_char (u % 36) ∷ out in
    let more = ltob36_loop rounds (u / 36) out' in if u / 36 == 0 then out' else more

unfoldable pub ltob36 : ℕ → List ℕ
unfolding ltob36_loop digit_char
ltob36 i = ltob36_loop (suc i) i []

-- What a base-36 reader makes of a character and of a text.
abbrev pub char_value : ℕ → ℕ
char_value c = if ltb c b'A' then c - b'0' else c + 10 - b'A'

abbrev pub value_from : ℕ → List ℕ → ℕ
value_from acc [] = acc
value_from acc (c ∷ cs) = value_from (36 * acc + char_value c) cs

char_value-digit_char : (d : ℕ) → d < 36 → char_value (digit_char d) ≡ d
unfolding digit_char
char_value-digit_char d h = ground arith

-- The digits still to be written come before those that are there.
ltob36_loop-value_from :
    (rounds u : ℕ) (out : List ℕ)
    → u < rounds
    → value_from 0 (ltob36_loop rounds u out) ≡ value_from u out
unfolding ltob36_loop
ltob36_loop-value_from zero u out h = absurd (omega arith)
ltob36_loop-value_from (suc rounds) u out h =
    let d = char_value-digit_char (u % 36) (omega arith) in
    elim (Bool-cases (u / 36 == 0)) [
      | inl last ↦
          let z : u / 36 ≡ 0 = ==→eq _ _ last in
          rw last (ap (λ (n : ℕ). value_from n out) (omega (arith, d)))
      | inr more ↦ rw more (
          ltob36_loop-value_from rounds (u / 36) (digit_char (u % 36) ∷ out) (ground arith)
          ∙ ap (λ (n : ℕ). value_from n out) (omega (arith, d)))
    ]

abbrev pub is_digit : ℕ → Bool
is_digit c = (leb b'0' c && leb c b'9') || (leb b'A' c && leb c b'Z')

digit_char-is_digit : (d : ℕ) → d < 36 → is_digit (digit_char d) ≡ true
unfolding digit_char
digit_char-is_digit d h = ground arith

ltob36_loop-digits :
    (rounds u : ℕ) (out : List ℕ)
    → All (λ c. is_digit c ≡ true) out
    → All (λ c. is_digit c ≡ true) (ltob36_loop rounds u out)
unfolding ltob36_loop
ltob36_loop-digits zero u out h = h
ltob36_loop-digits (suc rounds) u out h =
    let d = digit_char-is_digit (u % 36) (omega arith) in
    elim (Bool-cases (u / 36 == 0)) [
      | inl last ↦ rw last (d, h)
      | inr more ↦ rw more (ltob36_loop-digits rounds (u / 36) (digit_char (u % 36) ∷ out) (d, h))
    ]

-- Every number is written in digits and capital letters, and reading these in base 36 gives the number
-- back.
ltob36_value : (i : ℕ) → (value_from 0 (ltob36 i) ≡ i) × All (λ c. is_digit c ≡ true) (ltob36 i)
unfolding ltob36
ltob36_value i =
    (ltob36_loop-value_from (suc i) i [] (omega arith), ltob36_loop-digits (suc i) i [] tt)
