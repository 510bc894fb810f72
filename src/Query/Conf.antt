-- ===== src/Query/Conf.antt =====
-- query_conf.h: from the text of a configuration to the descriptions of its queries.
pub mod Checks
pub mod Visit
pub mod Numbers
pub mod Descriptions
pub mod Complete
use ozo_pg.Base.{
  ℕ, zero, suc, ◌+◌, ◌≡◌, List, [], ◌∷◌, ◌++◌, map, Option, none, some, Bool, true, false, not, ltb,
  leb, if◌then◌else◌, Result, ok, thrown, ◌>>=◌, length,
}
use ozo_pg.Query.{Text, text_eq}
use ozo_pg.Query.Decimal.{to_string}
use ozo_pg.Query.Names.{contains}

-- What is thrown, with the names that its message has.
pub data Failure : Type 0 where
  lines_not_parsed expected_comment : Failure
  text_not_parsed duplicate_declaration duplicate_definition not_defined not_declared :
      Text → Failure
  parameter_not_found only_numeric_names : Text → Text → Failure
  greater_than_maximum : Text → ℕ → Failure

pub data QueryLine : Type 0 where
  query_line_comment query_line_text : Text → QueryLine

pub data QueryTextElement : Type 0 where
  query_text_part query_parameter_name : Text → QueryTextElement

pub record ParsedQuery : Type 0 where
  pub name : Text
  pub text : List QueryTextElement

-- The type of the parameters of a query: a structure with named members, or a tuple of a size.
pub data ParametersType : Type 0 where
  members : List Text → ParametersType
  tuple : ℕ → ParametersType

-- A query as the program declares it.
pub record TypedQuery : Type 0 where
  pub name : Text
  pub parameters_type : ParametersType

pub record QueryDescription : Type 0 where
  pub name : Text
  pub text : Text

-- The rules of the three Boost.Spirit parsers, and what the code uses of Boost.
pub record Boost : Type 0 where
  pub parse_lines : Text → Option (List QueryLine)
  pub parse_header : Text → Option Text
  pub parse_text : Text → Option (List QueryTextElement)
  pub try_lexical_convert : Text → Option ℕ
  pub trim : Text → Text

pub data StateType : Type 0 where
  initial header_parsed : StateType

pub record LineVisitor : Type 0 where
  pub state : StateType
  pub queries : List ParsedQuery

-- `queries.back().text.insert(end, ...)`
unfoldable pub insert_back : List QueryTextElement → List ParsedQuery → List ParsedQuery
insert_back text [] = []
insert_back text (q ∷ []) = record q { text = q.text ++ text } ∷ []
insert_back text (q ∷ r ∷ qs) = q ∷ insert_back text (r ∷ qs)

abbrev back_name : List ParsedQuery → Text
back_name [] = []
back_name (q ∷ []) = q.name
back_name (q ∷ r ∷ qs) = back_name (r ∷ qs)

unfoldable pub parse_header_at : Option Text → LineVisitor → LineVisitor
parse_header_at none v = v
parse_header_at (some name) v = record {
  state = header_parsed;
  queries = v.queries ++ (record { name = name; text = [] } ∷ []);
}

unfoldable pub parse_text_at :
    Option (List QueryTextElement) → LineVisitor → Result Failure LineVisitor
unfolding insert_back
parse_text_at none v = thrown (text_not_parsed (back_name v.queries))
parse_text_at (some text) v = ok (record v { queries = insert_back text v.queries })

module _ (b : Boost) where
  unfoldable pub on_text : StateType → Text → LineVisitor → Result Failure LineVisitor
  unfolding parse_text_at
  on_text initial value v = thrown expected_comment
  on_text header_parsed value v = parse_text_at (b.parse_text value) v

  unfoldable pub visit_line : QueryLine → LineVisitor → Result Failure LineVisitor
  unfolding parse_header_at on_text
  visit_line (query_line_comment value) v = ok (parse_header_at (b.parse_header value) v)
  visit_line (query_line_text value) v = on_text v.state value v

  unfoldable pub visit_lines : List QueryLine → LineVisitor → Result Failure LineVisitor
  unfolding visit_line
  visit_lines [] v = ok v
  visit_lines (l ∷ ls) v = visit_line l v >>= visit_lines ls

  unfoldable pub parse_query_conf_elements : List QueryLine → Result Failure (List ParsedQuery)
  unfolding visit_lines
  parse_query_conf_elements lines =
      visit_lines lines (record { state = initial; queries = [] }) >>= λ v. ok v.queries

  unfoldable pub parse_query_conf_lines : Text → Result Failure (List QueryLine)
  parse_query_conf_lines text = elim (b.parse_lines text) [
    | none ↦ thrown lines_not_parsed
    | some lines ↦ ok lines
  ]

  unfoldable pub parse_query_conf : Text → Result Failure (List ParsedQuery)
  unfolding parse_query_conf_lines parse_query_conf_elements
  parse_query_conf text = parse_query_conf_lines text >>= parse_query_conf_elements

-- The two overloads of `check_for_duplicates`, over the names of the declared and of the defined queries: a name
-- is put into the set of those before it.
unfoldable pub check_for_duplicates :
    (Text → Failure) → List Text → List Text → Result Failure (List Text)
unfolding contains
check_for_duplicates e set [] = ok set
check_for_duplicates e set (n ∷ ns) =
    if contains set n then thrown (e n) else check_for_duplicates e (n ∷ set) ns

unfoldable pub check_for_undefined : List TypedQuery → List Text → Result Failure Unit
unfolding contains
check_for_undefined [] definitions = ok tt
check_for_undefined (q ∷ qs) definitions =
    if contains definitions q.name
    then check_for_undefined qs definitions
    else thrown (not_defined q.name)

-- The loop over the keys of a structure, with its variables `found` and `number`.
unfoldable pub find_member : List Text → Text → Bool → ℕ → Bool × ℕ
find_member [] value found number = (found, number)
find_member (key ∷ keys) value found number =
    if text_eq key value
    then find_member keys value true number
    else (if not found
        then find_member keys value found (number + 1)
        else find_member keys value found number)

unfoldable pub member_number : Text → Text → Bool × ℕ → Result Failure ℕ
member_number query value (true, number) = ok number
member_number query value (false, number) = thrown (parameter_not_found query value)

unfoldable pub tuple_number : Text → Text → ℕ → Option ℕ → Result Failure ℕ
tuple_number query value size none = thrown (only_numeric_names query value)
tuple_number query value size (some number) =
    if leb size number then thrown (greater_than_maximum value size) else ok number

module _ (b : Boost) where
  unfoldable pub parameter_number : Text → ParametersType → Text → Result Failure ℕ
  unfolding find_member member_number tuple_number
  parameter_number query (members keys) value =
      member_number query value (find_member keys value false 0)
  parameter_number query (tuple size) value =
      tuple_number query value size (b.try_lexical_convert value)

  -- `query_part_visitor`, on the text of the description so far
  unfoldable pub visit_part : TypedQuery → QueryTextElement → Text → Result Failure Text
  unfolding parameter_number to_string
  visit_part query (query_text_part value) text = ok (text ++ value)
  visit_part query (query_parameter_name value) text =
      parameter_number query.name query.parameters_type value >>= λ number.
      ok (text ++ (b'$' ∷ to_string (number + 1)))

  unfoldable pub visit_parts : TypedQuery → List QueryTextElement → Text → Result Failure Text
  unfolding visit_part
  visit_parts query [] text = ok text
  visit_parts query (part ∷ parts) text = visit_part query part text >>= visit_parts query parts

  unfoldable pub describe : TypedQuery → ParsedQuery → Result Failure QueryDescription
  unfolding visit_parts
  describe query parsed = visit_parts query parsed.text [] >>= λ text.
      ok (record { name = parsed.name; text = b.trim text })

  -- `make_query_description` over the declared queries, on `opt_query_description`
  unfoldable pub describe_among :
      List TypedQuery → ParsedQuery → Option QueryDescription → Result Failure QueryDescription
  unfolding describe
  describe_among [] parsed none = thrown (not_declared parsed.name)
  describe_among [] parsed (some description) = ok description
  describe_among (q ∷ qs) parsed found =
      if text_eq q.name parsed.name
      then describe q parsed >>= (λ d. describe_among qs parsed (some d))
      else describe_among qs parsed found

  unfoldable pub make_query_descriptions :
      List TypedQuery → List ParsedQuery → Result Failure (List QueryDescription)
  unfolding describe_among
  make_query_descriptions queries [] = ok []
  make_query_descriptions queries (v ∷ vs) = describe_among queries v none >>= λ d.
      make_query_descriptions queries vs >>= λ ds. ok (d ∷ ds)
