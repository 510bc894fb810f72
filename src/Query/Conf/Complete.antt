-- ===== src/Query/Conf/Complete.antt =====
-- query_conf.h: the descriptions that can be made.
use mathlib.Core.List.{append_assoc, append-nil}
use ozo_pg.Base.{
  ℕ, ◌+◌, ◌<◌, ◌≡◌, refl, sym, ap, ◌∙◌, inl, inr, List, [], ◌∷◌, ◌++◌, map, length, none, some,
  true, false, Bool-cases, ok, ◌>>=◌, bind-ok, leb, arith,
}
use ozo_pg.Query.{Text, text_eq}
use ozo_pg.Query.Decimal.{to_string}
use ozo_pg.Query.Names.{text_eq-ne, text_eq_refl, text_eq→eq, IsIn, IsDistinct}
use ozo_pg.Query.Conf.{
  QueryTextElement, ParsedQuery, ParametersType, members, tuple, TypedQuery, QueryDescription,
  Boost, find_member, member_number, tuple_number, parameter_number, visit_part, visit_parts,
  describe, describe_among, make_query_descriptions,
}
use ozo_pg.Query.Conf.Numbers.{
  IsNumber, Renders, no_parts, part_kept, part_numbered, find_member-found, describe-Renders,
}
use ozo_pg.Query.Conf.Descriptions.{declared_name, describe_among-declared}

find_member-first :
    (pre post : List Text) (value : Text) (n : ℕ)
    → (IsIn value pre → ⊥)
    → find_member (pre ++ (value ∷ post)) value false n ≡ (true, n + length pre)
unfolding find_member
find_member-first [] post value n out =
    rw (text_eq_refl value)
      (find_member-found post value n ∙ ap (λ (m : ℕ). (true, m)) (omega arith))
find_member-first (p ∷ pre) post value n out = rw (text_eq-ne p value (λ e. out (inl e))) (
    find_member-first pre post value (n + 1) (λ i. out (inr i))
    ∙ ap (λ (m : ℕ). (true, m)) (omega arith))

above-leb : (size n : ℕ) → n < size → leb size n ≡ false
above-leb size n h = ground arith

tuple_number-below :
    (query value : Text) (size n : ℕ) → n < size → tuple_number query value size (some n) ≡ ok n
unfolding tuple_number
tuple_number-below query value size n h = rw (above-leb size n h) refl

IsNumber-parameter_number :
    (b : Boost) (query : Text) (t : ParametersType) (value : Text) (n : ℕ)
    → IsNumber b t value n
    → parameter_number b query t value ≡ ok n
unfolding parameter_number member_number tuple_number
IsNumber-parameter_number b query (members keys) value n (pre, post, split, place, out) =
    ap (λ k. member_number query value (find_member k value false 0)) split
    ∙ ap (member_number query value) (find_member-first pre post value 0 out)
    ∙ ap (λ (m : ℕ). ok m) (omega (arith, place))
IsNumber-parameter_number b query (tuple size) value n (found, small) =
    ap (tuple_number query value size) found ∙ tuple_number-below query value size n small

Renders-visit_parts :
    (b : Boost) (query : TypedQuery) (parts : List QueryTextElement) (s t : Text)
    → Renders b query.parameters_type parts t
    → visit_parts b query parts s ≡ ok (s ++ t)
unfolding visit_parts visit_part
Renders-visit_parts b query _ s _ no_parts = ap (λ (x : Text). ok x) (sym (append-nil s))
Renders-visit_parts b query _ s _ (part_kept value es t r) =
    Renders-visit_parts b query es (s ++ value) t r
    ∙ ap (λ (x : Text). ok x) (append_assoc s value t)
Renders-visit_parts b query _ s _ (part_numbered value n es t h r) =
    rw (IsNumber-parameter_number b query.name query.parameters_type value n h) (
      Renders-visit_parts b query es (s ++ (b'$' ∷ to_string (n + 1))) t r
      ∙ ap (λ (x : Text). ok x) (append_assoc s (b'$' ∷ to_string (n + 1)) t))

module _ (b : Boost) where
  -- A query is declared for it whose parameters its text has.
  abbrev pub IsDescribable : List TypedQuery → ParsedQuery → Type 0
  IsDescribable qs v =
      (q : TypedQuery) × IsIn q qs
      × (q.name ≡ v.name)
      × ((t : Text) × Renders b q.parameters_type v.text t)

  Renders-describe :
      (q : TypedQuery) (v : ParsedQuery) (t : Text)
      → Renders b q.parameters_type v.text t
      → (d : QueryDescription) × (describe b q v ≡ ok d)
  unfolding describe
  Renders-describe q v t r = rw (Renders-visit_parts b q v.text [] t r) (_, refl)

  pub describe_among-IsDescribable :
      (qs : List TypedQuery) (v : ParsedQuery) (d : QueryDescription)
      → describe_among b qs v none ≡ ok d
      → IsDescribable qs v
  unfolding describe_among
  describe_among-IsDescribable [] v d h = absurd cc
  describe_among-IsDescribable (q ∷ qs) v d h = elim (Bool-cases (text_eq q.name v.name)) [
    | inl same ↦
        let g : describe b q v >>= (λ x. describe_among b qs v (some x)) ≡ ok d = rw same at h in
        let (d₁, hd, hr) = bind-ok _ _ d g in
        let (t, r, _, _) = describe-Renders b q v d₁ hd in
        (q, inl refl, text_eq→eq q.name v.name same, (t, r))
    | inr other ↦
        let (p, i, e, r) = describe_among-IsDescribable qs v d (rw other at h) in (p, inr i, e, r)
  ]

  -- The descriptions of the parsed queries are made when each of these can be described.
  pub make_query_descriptions_ok :
      (qs : List TypedQuery) (vs : List ParsedQuery)
      → IsDistinct (map declared_name qs)
      → ((v : ParsedQuery) → IsIn v vs → IsDescribable qs v)
      → (ds : List QueryDescription) × (make_query_descriptions b qs vs ≡ ok ds)
  unfolding make_query_descriptions
  make_query_descriptions_ok qs [] distinct h = ([], refl)
  make_query_descriptions_ok qs (v ∷ vs) distinct h =
      let (q, i, e, tr) = h v (inl refl) in
      let (t, r) = tr in
      let (d, hd) = Renders-describe q v t r in
      let (ds, hds) = make_query_descriptions_ok qs vs distinct (λ w. λ k. h w (inr k)) in
      (d ∷ ds, rw (describe_among-declared b qs q v distinct i e ∙ hd, hds) refl)
