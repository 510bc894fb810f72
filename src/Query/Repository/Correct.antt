-- ===== src/Query/Repository/Correct.antt =====
-- query_conf.h: what a repository that has been made gives for each declared query.
use ozo_pg.Base.{◌≡◌, refl, sym, ap, ◌∙◌, subst, List, [], map, some, ok, bind-ok}
use ozo_pg.Query.{Text}
use ozo_pg.Query.Names.{IsIn, IsDistinct, from_map-IsIn}
use ozo_pg.Query.Conf.{
  duplicate_declaration, duplicate_definition, ParsedQuery, TypedQuery, Boost, parse_query_conf,
}
use ozo_pg.Query.Conf.Checks.{
  check_for_duplicates_iff, check_for_duplicates-IsIn, check_for_undefined-IsIn,
}
use ozo_pg.Query.Conf.Numbers.{Renders, describe-Renders}
use ozo_pg.Query.Repository.{
  lookup, QueryConf, insert_all, make_query_conf, get_description, make_query, fill,
  make_query_repository,
}
use ozo_pg.Query.Conf.Descriptions.{
  declared_name, parsed_name, describe_among-declared, make_query_descriptions-names,
  make_query_descriptions-each,
}
use ozo_pg.Query.Repository.Lookup.{insert_all-IsIn}

repository-Renders :
    (b : Boost) (conf : Text) (queries : List TypedQuery) (repository : QueryConf) (q : TypedQuery)
    → make_query_repository b conf queries ≡ ok repository
    → IsIn q queries
    → (parsed : List ParsedQuery) × (v : ParsedQuery) × (t : Text) × (parse_query_conf b conf
        ≡ ok parsed)
      × IsIn v parsed
      × (v.name ≡ q.name)
      × Renders b q.parameters_type v.text t
      × (get_description q.name repository ≡ some (b.trim t))
unfolding make_query_repository make_query_conf get_description
repository-Renders b conf queries repository q h i =
    let (declared, h₁, h₂) = bind-ok _ _ repository h in
    let (parsed, h₃, h₄) = bind-ok _ _ repository h₂ in
    let (definitions, h₅, h₆) = bind-ok _ _ repository h₄ in
    let (_, h₇, h₈) = bind-ok _ _ repository h₆ in
    let (ds, h₉, h₁₀) = bind-ok _ _ repository h₈ in
    let distinct : IsDistinct (map declared_name queries) =
      (check_for_duplicates_iff duplicate_declaration (map declared_name queries)).0
        (declared, h₁) in
    let distinct' : IsDistinct (map parsed_name parsed) =
      (check_for_duplicates_iff duplicate_definition (map parsed_name parsed)).0
        (definitions, h₅) in
    let is_defined : IsIn q.name definitions =
      check_for_undefined-IsIn queries definitions q h₇ i in
    let (v, iv, e) = from_map-IsIn parsed_name q.name parsed (
      check_for_duplicates-IsIn duplicate_definition (map parsed_name parsed) definitions q.name h₅
        is_defined) in
    let (d, id, hd) = make_query_descriptions-each b queries parsed ds v h₉ iv in
    let (t, r, dt, dn) =
      describe-Renders b q v d
        (sym (describe_among-declared b queries q v distinct i (sym e)) ∙ hd) in
    let names = make_query_descriptions-names b queries parsed ds h₉ in
    let found : lookup d.name (insert_all ds []) ≡ some d.text =
      insert_all-IsIn ds d [] (subst IsDistinct (sym names) distinct') id refl in
    let made : make_query_conf ds ≡ repository = cc in
    (
      parsed,
      v,
      t,
      h₃,
      iv,
      e,
      r,
      ap (λ (x : QueryConf). lookup q.name x.queries) (sym made)
          ∙ ap (λ x. lookup x (insert_all ds [])) (sym (dn ∙ e))
          ∙ found
          ∙ ap (λ x. some x) dt,
    )

-- When a repository is made of a configuration and of declared queries, the configuration defines each
-- declared query, and the query that the repository makes of it with some parameters has these parameters
-- and, as its text, what that definition renders, trimmed: the parts of its text with each parameter
-- replaced by `$` and its number.
pub make_query_repository-Renders :
    (b : Boost) (conf : Text) (queries : List TypedQuery) (repository : QueryConf) (q : TypedQuery)
    (V : Type 0) (params : List V)
    → make_query_repository b conf queries ≡ ok repository
    → IsIn q queries
    → (parsed : List ParsedQuery) × (v : ParsedQuery) × (t : Text) × (parse_query_conf b conf
        ≡ ok parsed)
      × IsIn v parsed
      × (v.name ≡ q.name)
      × Renders b q.parameters_type v.text t
      × (make_query q.name params repository ≡ some (record { text = b.trim t; params = params }))
unfolding make_query fill
make_query_repository-Renders b conf queries repository q V params h i =
    let (parsed, v, t, hp, iv, e, r, found) = repository-Renders b conf queries repository q h i in
    (parsed, v, t, hp, iv, e, r, ap (fill params) found)
