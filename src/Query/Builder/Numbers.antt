-- ===== src/Query/Builder/Numbers.antt =====
-- The numbers that the text of a builder gives to its parameters.
use ozo_pg.Base.{
  ℕ, suc, ◌+◌, ◌≡◌, refl, ap, sym, ◌∙◌, List, [], ◌∷◌, ◌++◌, length, length-append, arith,
}
use mathlib.Core.List.{append_assoc, append-nil}
use ozo_pg.Query.Decimal.{to_string}
use ozo_pg.Query.Builder.{
  QueryElement, query_text, query_param, BuiltText, built, add_value, concat, text_from, text,
  params_from, params,
}

module _ {ℓ} {V : Type ℓ} where
  abbrev count : List (QueryElement V) → ℕ
  count [] = 0
  count (query_text value ∷ es) = count es
  count (query_param v ∷ es) = suc (count es)

  -- A text that has been built only grows.
  text_from-built :
      (n : ℕ) (s : List ℕ) (es : List (QueryElement V))
      → (b : List ℕ) × (text_from n (built s) es ≡ built (s ++ b))
  unfolding text_from add_value concat
  text_from-built n s [] = ([], sym (ap built (append-nil s)))
  text_from-built n s (query_text value ∷ es) =
      let (b, e) = text_from-built n (s ++ value) es in
      (value ++ b, e ∙ ap built (append_assoc s value b))
  text_from-built n s (query_param v ∷ es) =
      let (b, e) = text_from-built (n + 1) (s ++ (b'$' ∷ to_string n)) es in
      ((b'$' ∷ to_string n) ++ b, e ∙ ap built (append_assoc s (b'$' ∷ to_string n) b))

  text_from-append :
      (n : ℕ) (s : BuiltText) (es fs : List (QueryElement V))
      → text_from n s (es ++ fs) ≡ text_from (n + count es) (text_from n s es) fs
  unfolding text_from
  text_from-append n s [] fs = ap (λ (m : ℕ). text_from m s fs) (omega arith)
  text_from-append n s (query_text value ∷ es) fs = text_from-append n (add_value s value) es fs
  text_from-append n s (query_param v ∷ es) fs =
      text_from-append (n + 1) (concat s (b'$' ∷ to_string n)) es fs
      ∙ ap (λ (m : ℕ). text_from m (text_from (n + 1) (concat s (b'$' ∷ to_string n)) es) fs)
          (omega arith)

  params_from-append :
      (r : List V) (es fs : List (QueryElement V))
      → params_from r (es ++ fs) ≡ params_from (params_from r es) fs
  unfolding params_from
  params_from-append r [] fs = refl
  params_from-append r (query_text value ∷ es) fs = params_from-append r es fs
  params_from-append r (query_param v ∷ es) fs = params_from-append (r ++ (v ∷ [])) es fs

  params_from-grows :
      (r : List V) (es : List (QueryElement V)) → (p : List V) × (params_from r es ≡ r ++ p)
  unfolding params_from
  params_from-grows r [] = ([], sym (append-nil r))
  params_from-grows r (query_text value ∷ es) = params_from-grows r es
  params_from-grows r (query_param v ∷ es) =
      let (p, e) = params_from-grows (r ++ (v ∷ [])) es in (v ∷ p, e ∙ append_assoc r (v ∷ []) p)

  params_from-count :
      (r : List V) (es : List (QueryElement V)) → length (params_from r es) ≡ length r + count es
  unfolding params_from
  params_from-count r [] = omega arith
  params_from-count r (query_text value ∷ es) = params_from-count r es
  params_from-count r (query_param v ∷ es) =
      let ih = params_from-count (r ++ (v ∷ [])) es in
      let l = length-append r (v ∷ []) in omega (arith, ih, l)

  -- In a builder that starts with a text, a parameter is written as `$` and its place, counted from 1, in
  -- the list of parameters: after what the builder before it has as text, and with the parameters before
  -- it in front in the list.
  pub text-query_param :
      (t : List ℕ) (pre post : List (QueryElement V)) (v : V)
      → (a b : List ℕ) × (rest : List V) × (text (query_text t ∷ pre) ≡ built a)
        × (text (query_text t ∷ (pre ++ (query_param v ∷ post)))
            ≡ built (a ++ ((b'$' ∷ to_string (1 + length (params pre))) ++ b)))
        × (params (query_text t ∷ (pre ++ (query_param v ∷ post))) ≡ params pre ++ (v ∷ rest))
  unfolding text params add_value text_from params_from concat
  text-query_param t pre post v =
      let (a₀, ea) = text_from-built 1 t pre in
      let n = length (params pre) in
      let c : n ≡ 0 + count pre = params_from-count [] pre in
      let (b, eb) = text_from-built (1 + n + 1) ((t ++ a₀) ++ (b'$' ∷ to_string (1 + n))) post in
      let (rest, er) = params_from-grows (params pre ++ (v ∷ [])) post in
      (
        t ++ a₀,
        b,
        rest,
        ea,
        text_from-append 1 (built t) pre (query_param v ∷ post)
            ∙ ap (λ (m : ℕ). text_from m (text_from 1 (built t) pre) (query_param v ∷ post))
                (omega (arith, c))
            ∙ ap (λ (s : BuiltText). text_from (1 + n) s (query_param v ∷ post)) ea
            ∙ eb
            ∙ ap built (append_assoc (t ++ a₀) (b'$' ∷ to_string (1 + n)) b),
        params_from-append [] pre (query_param v ∷ post)
            ∙ er
            ∙ append_assoc (params pre) (v ∷ []) rest,
      )
