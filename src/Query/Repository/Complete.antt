-- ===== src/Query/Repository/Complete.antt =====
-- query_conf.h: when a repository is made, and when something is thrown in its place.
use ozo_pg.Base.{◌≡◌, refl, ◌↔◌, List, map, ok, bind-ok}
use ozo_pg.Query.{Text}
use ozo_pg.Query.Names.{IsIn, IsDistinct}
use ozo_pg.Query.Conf.{
  duplicate_declaration, duplicate_definition, ParsedQuery, TypedQuery, Boost, parse_query_conf,
  check_for_undefined,
}
use ozo_pg.Query.Conf.Checks.{
  check_for_duplicates_iff, check_for_duplicates-IsIn, check_for_duplicates_keeps,
  check_for_undefined-IsIn, check_for_undefined_ok,
}
use ozo_pg.Query.Conf.Descriptions.{declared_name, parsed_name, make_query_descriptions-each}
use ozo_pg.Query.Conf.Complete.{
  IsDescribable, describe_among-IsDescribable, make_query_descriptions_ok,
}
use ozo_pg.Query.Repository.{QueryConf, make_query_conf, make_query_repository}

-- The declared names are distinct, the configuration is parsed, the names that it defines are distinct, every
-- declared query is among them, and for each definition a query is declared that has its parameters.
abbrev pub IsConsistent : Boost → Text → List TypedQuery → Type 0
IsConsistent b conf queries =
    IsDistinct (map declared_name queries)
    × ((parsed : List ParsedQuery) × (parse_query_conf b conf ≡ ok parsed)
        × IsDistinct (map parsed_name parsed)
        × ((q : TypedQuery) → IsIn q queries → IsIn q.name (map parsed_name parsed))
        × ((v : ParsedQuery) → IsIn v parsed → IsDescribable b queries v))

made-IsConsistent :
    (b : Boost) (conf : Text) (queries : List TypedQuery) (repository : QueryConf)
    → make_query_repository b conf queries ≡ ok repository
    → IsConsistent b conf queries
unfolding make_query_repository
made-IsConsistent b conf queries repository h =
    let (declared, h₁, h₂) = bind-ok _ _ repository h in
    let (parsed, h₃, h₄) = bind-ok _ _ repository h₂ in
    let (definitions, h₅, h₆) = bind-ok _ _ repository h₄ in
    let (_, h₇, h₈) = bind-ok _ _ repository h₆ in
    let (ds, h₉, h₁₀) = bind-ok _ _ repository h₈ in
    (
      (check_for_duplicates_iff duplicate_declaration (map declared_name queries)).0 (declared, h₁),
      (
        parsed,
        h₃,
        (check_for_duplicates_iff duplicate_definition (map parsed_name parsed)).0
            (definitions, h₅),
        (λ q. λ i.
            check_for_duplicates-IsIn duplicate_definition (map parsed_name parsed) definitions
              q.name h₅ (check_for_undefined-IsIn queries definitions q h₇ i)),
        (λ v. λ i.
            let (d, _, hd) = make_query_descriptions-each b queries parsed ds v h₉ i in
            describe_among-IsDescribable b queries v d hd),
      ),
    )

IsConsistent-made :
    (b : Boost) (conf : Text) (queries : List TypedQuery)
    → IsConsistent b conf queries
    → (repository : QueryConf) × (make_query_repository b conf queries ≡ ok repository)
unfolding make_query_repository
IsConsistent-made b conf queries (distinct, rest) =
    let (parsed, h₃, distinct', defined, describable) = rest in
    let (declared, h₁) =
      (check_for_duplicates_iff duplicate_declaration (map declared_name queries)).1 distinct in
    let (definitions, h₅) =
      (check_for_duplicates_iff duplicate_definition (map parsed_name parsed)).1 distinct' in
    let h₇ : check_for_undefined queries definitions ≡ ok tt =
      check_for_undefined_ok queries definitions (λ q. λ i.
        check_for_duplicates_keeps duplicate_definition (map parsed_name parsed) definitions q.name
          h₅ (defined q i)) in
    let (ds, h₉) = make_query_descriptions_ok b queries parsed distinct describable in
    (make_query_conf ds, rw (h₁, h₃, h₅, h₇, h₉) refl)

-- A repository is made of a configuration and of declared queries exactly when the declared names are
-- distinct, the configuration is parsed, the names that it defines are distinct, it defines every declared
-- query, and for each of its definitions a query is declared under its name that has each parameter that
-- the definition names.
pub make_query_repository_iff :
    (b : Boost) (conf : Text) (queries : List TypedQuery)
    → ((repository : QueryConf) × (make_query_repository b conf queries ≡ ok repository))
      ↔ IsConsistent b conf queries
make_query_repository_iff b conf queries =
    (λ p. made-IsConsistent b conf queries p.0 p.1, λ c. IsConsistent-made b conf queries c)
