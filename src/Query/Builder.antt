-- ===== src/Query/Builder.antt =====
-- query_builder.h: `query_builder`, its text, its parameters, and how builders are put together.
pub mod Numbers
use ozo_pg.Base.{
  ℕ, zero, suc, ◌+◌, ◌≡◌, refl, ap, sym, ◌∙◌, List, [], ◌∷◌, ◌++◌, Option, none, some, length,
  arith,
}
use ozo_pg.Query.Decimal.{to_string}

pub data QueryElement {ℓ} (V : Type ℓ) : Type ℓ where
  query_text : List ℕ → QueryElement V
  query_param : V → QueryElement V

-- The second part of the folded tuple. `nothing_t` has no `concat`: a builder that starts with a
-- parameter is refused by the compiler.
pub data BuiltText : Type 0 where
  nothing refused : BuiltText
  built : List ℕ → BuiltText

unfoldable pub add_value : BuiltText → List ℕ → BuiltText
add_value nothing value = built value
add_value refused value = refused
add_value (built s) value = built (s ++ value)

unfoldable pub concat : BuiltText → List ℕ → BuiltText
concat nothing value = refused
concat refused value = refused
concat (built s) value = built (s ++ value)

module _ {ℓ} {V : Type ℓ} where
  unfoldable pub text_from : ℕ → BuiltText → List (QueryElement V) → BuiltText
  unfolding add_value concat
  text_from n s [] = s
  text_from n s (query_text value ∷ es) = text_from n (add_value s value) es
  text_from n s (query_param v ∷ es) = text_from (n + 1) (concat s (b'$' ∷ to_string n)) es

  unfoldable pub text : List (QueryElement V) → BuiltText
  unfolding text_from
  text elements = text_from 1 nothing elements

  unfoldable pub params_from : List V → List (QueryElement V) → List V
  params_from r [] = r
  params_from r (query_text value ∷ es) = params_from r es
  params_from r (query_param v ∷ es) = params_from (r ++ (v ∷ [])) es

  unfoldable pub params : List (QueryElement V) → List V
  unfolding params_from
  params elements = params_from [] elements

  -- `operator +`: of two builders, of a builder and an element, of an element and a builder, of a builder
  -- and a value.
  unfoldable pub plus : List (QueryElement V) → List (QueryElement V) → List (QueryElement V)
  plus lhs rhs = lhs ++ rhs

  unfoldable pub plus_element : List (QueryElement V) → QueryElement V → List (QueryElement V)
  plus_element builder element = builder ++ (element ∷ [])

  unfoldable pub element_plus : QueryElement V → List (QueryElement V) → List (QueryElement V)
  element_plus lhs rhs = lhs ∷ rhs

  unfoldable pub plus_value : List (QueryElement V) → V → List (QueryElement V)
  unfolding plus_element
  plus_value lhs rhs = plus_element lhs (query_param rhs)

  unfoldable pub element_plus_value : QueryElement V → V → List (QueryElement V)
  element_plus_value lhs rhs = lhs ∷ query_param rhs ∷ []

  unfoldable pub element_plus_element : QueryElement V → QueryElement V → List (QueryElement V)
  element_plus_element lhs rhs = lhs ∷ rhs ∷ []

  -- `operator""_SQL`
  unfoldable pub sql : List ℕ → List (QueryElement V)
  sql value = query_text value ∷ []
