-- ===== src/Query/Decimal.antt =====
-- query_builder.h: `detail::to_string` of a number.
use ozo_pg.Base.{
  ℕ, zero, suc, ◌+◌, ◌-◌, ◌*◌, ◌/◌, ◌%◌, ◌<◌, ◌≡◌, refl, sym, ap, ◌∙◌, List, [], ◌∷◌, ◌++◌, leb,
  ◌==◌, ◌&&◌, Bool, if◌then◌else◌, Bool-cases, inl, inr, ==→eq, arith,
}

-- `to_string_head` of 0 is empty. A number is above the number of its digits, so `value + 1` rounds are
-- enough.
unfoldable pub to_string_head : ℕ → ℕ → List ℕ
to_string_head zero value = []
to_string_head (suc rounds) value =
    let divident = value % 10 in
    let head = (value - divident) / 10 in
    let rest = to_string_head rounds head in
    (if head == 0 then [] else rest) ++ ((b'0' + divident) ∷ [])

unfoldable pub to_string : ℕ → List ℕ
unfolding to_string_head
to_string value = to_string_head (suc value) value

-- What a decimal reader makes of a text.
abbrev pub value_from : ℕ → List ℕ → ℕ
value_from acc [] = acc
value_from acc (c ∷ cs) = value_from (10 * acc + (c - b'0')) cs

abbrev pub is_digit : ℕ → Bool
is_digit c = leb b'0' c && leb c b'9'

value_from-append :
    (s : List ℕ) (acc c : ℕ) → value_from acc (s ++ (c ∷ [])) ≡ 10 * value_from acc s + (c - b'0')
value_from-append [] acc c = refl
value_from-append (d ∷ s) acc c = value_from-append s (10 * acc + (d - b'0')) c

to_string_head-value_from : (rounds v : ℕ) → v < rounds → value_from 0 (to_string_head rounds v) ≡ v
unfolding to_string_head
to_string_head-value_from zero v h = absurd (omega arith)
to_string_head-value_from (suc rounds) v h = elim (Bool-cases ((v - v % 10) / 10 == 0)) [
  | inl last ↦ let z : (v - v % 10) / 10 ≡ 0 = ==→eq _ _ last in rw last (omega arith)
  | inr more ↦ rw more (
      let ih = to_string_head-value_from rounds ((v - v % 10) / 10) (ground arith) in
      let a = value_from-append (to_string_head rounds ((v - v % 10) / 10)) 0 (b'0' + v % 10) in
      omega (arith, ih, a))
]

-- A number's text is the number when it is read in base 10.
pub to_string_value : (v : ℕ) → value_from 0 (to_string v) ≡ v
unfolding to_string
to_string_value v = to_string_head-value_from (suc v) v (omega arith)

pub to_string_injective : (v w : ℕ) → to_string v ≡ to_string w → v ≡ w
to_string_injective v w h = sym (to_string_value v) ∙ ap (λ s. value_from 0 s) h ∙ to_string_value w
