-- ===== src/Query/Conf/Descriptions.antt =====
-- query_conf.h: the descriptions that are made of the parsed queries.
use ozo_pg.Base.{
  ◌≡◌, refl, sym, ap, ◌∙◌, subst, inl, inr, List, [], ◌∷◌, map, Option, none, some, Result, ok,
  thrown, ◌>>=◌, bind-ok, Bool-cases,
}
use ozo_pg.Query.{Text, text_eq}
use ozo_pg.Query.Names.{text_eq-ne, text_eq_refl, IsIn, IsDistinct, map-IsIn}
use ozo_pg.Query.Conf.{
  Failure, ParsedQuery, TypedQuery, QueryDescription, Boost, make_query_descriptions, describe,
  describe_among,
}
use ozo_pg.Query.Conf.Numbers.{describe-Renders}

abbrev pub declared_name : TypedQuery → Text
declared_name q = q.name

abbrev pub parsed_name : ParsedQuery → Text
parsed_name q = q.name

abbrev pub description_name : QueryDescription → Text
description_name d = d.name

module _ (b : Boost) where
  -- No further declared query has the name.
  describe_among-found :
      (qs : List TypedQuery) (v : ParsedQuery) (d : QueryDescription)
      → (IsIn v.name (map declared_name qs) → ⊥)
      → describe_among b qs v (some d) ≡ ok d
  unfolding describe_among
  describe_among-found [] v d h = refl
  describe_among-found (q ∷ qs) v d h =
      rw (text_eq-ne q.name v.name (λ e. h (inl e))) (describe_among-found qs v d (λ i. h (inr i)))

  describe_then_among :
      (qs : List TypedQuery) (v : ParsedQuery) (r : Result Failure QueryDescription)
      → (IsIn v.name (map declared_name qs) → ⊥)
      → (r >>= (λ d. describe_among b qs v (some d))) ≡ r
  describe_then_among qs v (ok d) h = describe_among-found qs v d h
  describe_then_among qs v (thrown e) h = refl

  pub describe_among-declared :
      (qs : List TypedQuery) (q : TypedQuery) (v : ParsedQuery)
      → IsDistinct (map declared_name qs)
      → IsIn q qs
      → q.name ≡ v.name
      → describe_among b qs v none ≡ describe b q v
  unfolding describe_among
  describe_among-declared [] q v d i e = absurd i
  describe_among-declared (p ∷ qs) q v (out, d) (inl i) e =
      let here : p.name ≡ v.name = ap (λ (x : TypedQuery). x.name) i ∙ e in
      rw (ap (text_eq p.name) (sym here) ∙ text_eq_refl p.name) (
        describe_then_among qs v (describe b p v)
          (subst (λ x. IsIn x (map declared_name qs) → ⊥) here out)
        ∙ ap (λ (x : TypedQuery). describe b x v) i)
  describe_among-declared (p ∷ qs) q v (out, d) (inr i) e =
      let away : p.name ≡ v.name → ⊥ = λ h.
        out (
          subst (λ x. IsIn x (map declared_name qs)) (e ∙ sym h) (map-IsIn declared_name q qs i)) in
      rw (text_eq-ne p.name v.name away) (describe_among-declared qs q v d i e)

  describe_among-name :
      (qs : List TypedQuery) (v : ParsedQuery) (o : Option QueryDescription) (d : QueryDescription)
      → ((d' : QueryDescription) → o ≡ some d' → d'.name ≡ v.name)
      → describe_among b qs v o ≡ ok d
      → d.name ≡ v.name
  unfolding describe_among
  describe_among-name [] v none d ho h = absurd cc
  describe_among-name [] v (some d') d ho h = let e : d' ≡ d = cc in ho d (ap (λ x. some x) e)
  describe_among-name (q ∷ qs) v o d ho h = elim (Bool-cases (text_eq q.name v.name)) [
    | inl c ↦
        let g : describe b q v >>= (λ x. describe_among b qs v (some x)) ≡ ok d = rw c at h in
        let (d₁, hd, hr) = bind-ok _ _ d g in
        let (u, r, t, n) = describe-Renders b q v d₁ hd in
        describe_among-name qs v (some d₁) d
          (λ d'.
            λ e. let e' : d₁ ≡ d' = cc in subst (λ (x : QueryDescription). x.name ≡ v.name) e' n)
          hr
    | inr f ↦ describe_among-name qs v o d ho (rw f at h)
  ]

  pub make_query_descriptions-names :
      (qs : List TypedQuery) (vs : List ParsedQuery) (ds : List QueryDescription)
      → make_query_descriptions b qs vs ≡ ok ds
      → map description_name ds ≡ map parsed_name vs
  unfolding make_query_descriptions
  make_query_descriptions-names qs [] ds h =
      let e : [] ≡ ds = cc in sym (ap (map description_name) e)
  make_query_descriptions-names qs (v ∷ vs) ds h =
      let (d, hd, h₁) = bind-ok _ _ ds h in
      let (ds', hds, h₂) =
        bind-ok (make_query_descriptions b qs vs) (λ (x : List QueryDescription). ok (d ∷ x)) ds
          h₁ in
      let e : d ∷ ds' ≡ ds = cc in
      let n : d.name ≡ v.name = describe_among-name qs v none d (λ d'. λ x. absurd cc) hd in
      let ns = make_query_descriptions-names qs vs ds' hds in
      sym (ap (map description_name) e)
      ∙ ap (λ x. x ∷ map description_name ds') n
      ∙ ap (◌∷◌ v.name) ns

  pub make_query_descriptions-each :
      (qs : List TypedQuery) (vs : List ParsedQuery) (ds : List QueryDescription) (v : ParsedQuery)
      → make_query_descriptions b qs vs ≡ ok ds
      → IsIn v vs
      → (d : QueryDescription) × IsIn d ds × (describe_among b qs v none ≡ ok d)
  unfolding make_query_descriptions
  make_query_descriptions-each qs [] ds v h i = absurd i
  make_query_descriptions-each qs (w ∷ vs) ds v h i =
      let (d, hd, h₁) = bind-ok _ _ ds h in
      let (ds', hds, h₂) =
        bind-ok (make_query_descriptions b qs vs) (λ (x : List QueryDescription). ok (d ∷ x)) ds
          h₁ in
      let e : d ∷ ds' ≡ ds = cc in
      elim i [
        | inl same ↦
            (d, subst (IsIn d) e (inl refl), subst (λ x. describe_among b qs x none ≡ ok d) same hd)
        | inr j ↦
            let (d', k, hk) = make_query_descriptions-each qs vs ds' v hds j in
            (d', subst (IsIn d') e (inr k), hk)
      ]
