-- ===== src/Query/Examples.antt =====
-- Queries and a configuration, with small parsers in the place of the library's.
use ozo_pg.Base.{
  ℕ, zero, suc, ◌+◌, ◌≡◌, refl, inl, ◌↔◌, List, [], ◌∷◌, ◌++◌, Option, none, some, Bool, ◌||◌, ◌==◌,
  if◌then◌else◌, Result, ok, thrown, length,
}
use ozo_pg.Query.{Text, literal}
use ozo_pg.Query.Decimal.{to_string, value_from, is_digit}
use ozo_pg.Query.Builder.{QueryElement, query_text, query_param, built, text, params}
use ozo_pg.Query.Builder.Numbers.{text-query_param}
use ozo_pg.Query.Conf.{
  Failure, QueryLine, query_line_comment, query_line_text, QueryTextElement, query_text_part,
  query_parameter_name, TypedQuery, members, tuple, Boost, ParsedQuery, parse_query_conf,
  parse_query_conf_elements,
}
use ozo_pg.Query.Names.{IsIn}
use ozo_pg.Query.Conf.Visit.{IsConf, parse_query_conf_elements_iff}
use ozo_pg.Query.Conf.Numbers.{Renders}
use ozo_pg.Query.Repository.{QueryConf, make_query_repository, get_description, make_query}
use ozo_pg.Query.Repository.Complete.{IsConsistent, make_query_repository_iff}
use ozo_pg.Query.Repository.Correct.{make_query_repository-Renders}

-- A line ends behind a line feed.
abbrev first_line : Text → Text × Text
first_line [] = ([], [])
first_line (c ∷ cs) =
    let (line, rest) = first_line cs in if c == 10 then (c ∷ [], cs) else (c ∷ line, rest)

abbrev lines_of : ℕ → Text → List QueryLine
lines_of zero t = []
lines_of (suc n) [] = []
lines_of (suc n) (c ∷ cs) =
    let (line, rest) = first_line (c ∷ cs) in
    let further = lines_of n rest in
    (if c == b'-' then query_line_comment line else query_line_text line) ∷ further

abbrev without : Text → Text → Option Text
without [] t = some t
without (p ∷ ps) [] = none
without (p ∷ ps) (c ∷ cs) = let rest = without ps cs in if p == c then rest else none

abbrev is_space : ℕ → Bool
is_space c = (c == 32) || (c == 10)

abbrev trim_left : Text → Text
trim_left [] = []
trim_left (c ∷ cs) = let rest = trim_left cs in if is_space c then rest else c ∷ cs

abbrev trim_right : Text → Text
trim_right [] = []
trim_right (c ∷ cs) = elim (trim_right cs) [
  | [] ↦ if is_space c then [] else c ∷ []
  | d ∷ ds ↦ c ∷ d ∷ ds
]

abbrev trimmed : Option Text → Option Text
trimmed none = none
trimmed (some t) = some (trim_right t)

-- Words between spaces: one that starts with a colon is the name of a parameter.
abbrev parts_of : Text → Text × List QueryTextElement
parts_of [] = ([], [])
parts_of (c ∷ cs) =
    let (word, parts) = parts_of cs in
    if c == b':'
    then ([], query_parameter_name word ∷ parts)
    else (if is_space c
        then ([], query_text_part (c ∷ []) ∷ query_text_part word ∷ parts)
        else (c ∷ word, parts))

abbrev small : Boost
small = record {
  parse_lines = λ t. some (lines_of (length t) t);
  parse_header = λ t. trimmed (without (literal "-- name: ") t);
  parse_text = λ t. let (word, parts) = parts_of t in some (query_text_part word ∷ parts);
  try_lexical_convert = λ t. elim t [
    | [] ↦ none
    | c ∷ cs ↦ if is_digit c then some (value_from 0 (c ∷ cs)) else none
  ];
  trim = λ t. trim_left (trim_right t);
}

abbrev conf : Text
conf = literal "-- name: find\nSELECT :two , :one\n-- name: all\nSELECT 1\n"

abbrev find : TypedQuery
find = record {
  name = literal "find";
  parameters_type = members (literal "one" ∷ literal "two" ∷ []);
}

abbrev find_numbered : TypedQuery
find_numbered = record { name = literal "find"; parameters_type = tuple 2 }

abbrev all_rows : TypedQuery
all_rows = record { name = literal "all"; parameters_type = tuple 0 }

abbrev declared : List TypedQuery
declared = find ∷ all_rows ∷ []

abbrev result_of : {A : Type 0} → A → Result Failure A → A
result_of a (ok x) = x
result_of a (thrown e) = a

abbrev no_conf : QueryConf
no_conf = record { descriptions = []; queries = [] }

abbrev repository : QueryConf
unfolding make_query_repository to_string
repository = result_of no_conf (make_query_repository small conf declared)

find_text : get_description (literal "find") repository ≡ some (literal "SELECT $2 , $1")
unfolding make_query_repository to_string get_description
find_text = refl

undeclared :
    make_query_repository small conf (find ∷ []) ≡ thrown (Failure.not_declared (literal "all"))
unfolding make_query_repository to_string
undeclared = refl

numbers_only :
    make_query_repository small conf (find_numbered ∷ all_rows ∷ [])
    ≡ thrown (Failure.only_numeric_names (literal "find") (literal "two"))
unfolding make_query_repository to_string
numbers_only = refl

abbrev filling : List ℕ
filling = 5 ∷ 6 ∷ []

make_query_repository-Renders_example :
    (parsed : List ParsedQuery) × (v : ParsedQuery) × (t : Text) × (parse_query_conf small conf
      ≡ ok parsed)
    × IsIn v parsed
    × (v.name ≡ find.name)
    × Renders small find.parameters_type v.text t
    × (make_query find.name filling repository
        ≡ some (record { text = small.trim t; params = filling }))
unfolding make_query_repository to_string
make_query_repository-Renders_example =
    make_query_repository-Renders small conf declared repository find ℕ filling refl (inl refl)

abbrev some_lines : List QueryLine
some_lines =
    query_line_comment (literal "-- queries")
    ∷ query_line_comment (literal "-- name: all\n")
    ∷ query_line_text (literal "SELECT 1")
    ∷ []

abbrev some_queries : List ParsedQuery
some_queries =
    record {
      name = literal "all";
      text =
          query_text_part (literal "SELECT")
          ∷ query_text_part (literal " ")
          ∷ query_text_part (literal "1")
          ∷ [];
    }
    ∷ []

some_queries_read : parse_query_conf_elements small some_lines ≡ ok some_queries
unfolding parse_query_conf_elements
some_queries_read = refl

parse_query_conf_elements_iff_example :
    (parse_query_conf_elements small some_lines ≡ ok some_queries)
    ↔ IsConf small some_lines some_queries
parse_query_conf_elements_iff_example = parse_query_conf_elements_iff small some_lines some_queries

abbrev builder : List (QueryElement ℕ)
builder =
    query_text (literal "SELECT ") ∷ query_param 7 ∷ query_text (literal "+") ∷ query_param 8 ∷ []

builder_text : text builder ≡ built (literal "SELECT $1+$2")
unfolding text to_string
builder_text = refl

text-query_param_example :
    (a b : List ℕ) × (rest : List ℕ) × (text {V = ℕ}
        (query_text (literal "SELECT ") ∷ query_param 7 ∷ query_text (literal "+") ∷ [])
      ≡ built a)
    × (text builder
        ≡ built (
            a
            ++ ((b'$'
                  ∷ to_string
                      (1 + length (params {V = ℕ} (query_param 7 ∷ query_text (literal "+") ∷ []))))
                ++ b)))
    × (params builder ≡ params (query_param 7 ∷ query_text (literal "+") ∷ []) ++ (8 ∷ rest))
text-query_param_example =
    text-query_param (literal "SELECT ") (query_param 7 ∷ query_text (literal "+") ∷ []) [] 8

make_query_repository_iff_example :
    ((r : QueryConf) × (make_query_repository small conf declared ≡ ok r))
    ↔ IsConsistent small conf declared
make_query_repository_iff_example = make_query_repository_iff small conf declared
