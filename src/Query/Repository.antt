-- ===== src/Query/Repository.antt =====
-- query_conf.h: `query_conf` and `query_repository`.
mod Lookup
pub mod Correct
pub mod Complete
use ozo_pg.Base.{
  ◌≡◌, List, [], ◌∷◌, map, Option, none, some, Bool, true, false, if◌then◌else◌, Result, ok, thrown,
  ◌>>=◌,
}
use ozo_pg.Query.{Text, text_eq}
use ozo_pg.Query.Conf.{
  Failure, duplicate_declaration, duplicate_definition, ParsedQuery, TypedQuery, QueryDescription,
  Boost, parse_query_conf, check_for_duplicates, check_for_undefined, make_query_descriptions,
}

-- `std::unordered_map` from names to texts: a name that is there keeps its text.
unfoldable pub lookup : Text → List (Text × Text) → Option Text
lookup name [] = none
lookup name ((key, value) ∷ queries) = if text_eq key name then some value else lookup name queries

unfoldable pub insert_unless : Option Text → Text × Text → List (Text × Text) → List (Text × Text)
insert_unless none p queries = p ∷ queries
insert_unless (some there) p queries = queries

unfoldable pub insert : Text × Text → List (Text × Text) → List (Text × Text)
unfolding lookup insert_unless
insert (name, text) queries = insert_unless (lookup name queries) (name, text) queries

pub record QueryConf : Type 0 where
  pub descriptions : List QueryDescription
  pub queries : List (Text × Text)

unfoldable pub insert_all : List QueryDescription → List (Text × Text) → List (Text × Text)
unfolding insert
insert_all [] queries = queries
insert_all (d ∷ ds) queries = insert_all ds (insert (d.name, d.text) queries)

unfoldable pub make_query_conf : List QueryDescription → QueryConf
unfolding insert_all
make_query_conf descriptions = record {
  descriptions = descriptions;
  queries = insert_all descriptions [];
}

-- The shared pointer: `none` is null, which a repository made by default holds.
unfoldable pub is_initialized : Option QueryConf → Bool
is_initialized none = false
is_initialized (some query_conf) = true

-- `none`: `at` throws `std::out_of_range`.
unfoldable pub get_description : Text → QueryConf → Option Text
unfolding lookup
get_description name query_conf = lookup name query_conf.queries

-- The query that `ozo::make_query` makes of a text and of parameters.
pub record Query (V : Type 0) : Type 0 where
  pub text : Text
  pub params : List V

unfoldable pub fill : {V : Type 0} → List V → Option Text → Option (Query V)
fill params none = none
fill params (some description) = some (record { text = description; params = params })

-- `make_query`: the members of a structure, or the elements of a tuple, become the parameters, in their
-- order; without an argument there are none.
unfoldable pub make_query : {V : Type 0} → Text → List V → QueryConf → Option (Query V)
unfolding get_description fill
make_query name params query_conf = fill params (get_description name query_conf)

module _ (b : Boost) where
  unfoldable pub make_query_repository : Text → List TypedQuery → Result Failure QueryConf
  unfolding parse_query_conf check_for_duplicates check_for_undefined make_query_descriptions
      make_query_conf
  make_query_repository text queries =
      check_for_duplicates duplicate_declaration [] (map (λ (q : TypedQuery). q.name) queries)
      >>= λ _. parse_query_conf b text >>= λ parsed.
          check_for_duplicates duplicate_definition [] (map (λ (q : ParsedQuery). q.name) parsed)
          >>= λ definitions. check_for_undefined queries definitions >>= λ _.
              make_query_descriptions b queries parsed >>= λ descriptions.
              ok (make_query_conf descriptions)
