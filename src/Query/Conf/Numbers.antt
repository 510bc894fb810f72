-- ===== src/Query/Conf/Numbers.antt =====
-- query_conf.h: the numbers of parameters, and the text of a description.
use mathlib.Core.List.{append_assoc, append-nil}
use ozo_pg.Base.{
  ℕ, ◌+◌, ◌<◌, ◌≡◌, refl, sym, ap, ◌∙◌, subst, inl, inr, List, [], ◌∷◌, ◌++◌, length, Option, none,
  some, Bool, true, false, true≢false, ok, thrown, bind-ok, leb, Bool-cases, arith,
}
use ozo_pg.Query.{Text, text_eq}
use ozo_pg.Query.Decimal.{to_string}
use ozo_pg.Query.Names.{text_eq→eq, text_eq-false, IsIn}
use ozo_pg.Query.Conf.{
  QueryTextElement, query_text_part, query_parameter_name, ParametersType, members, tuple,
  TypedQuery, ParsedQuery, QueryDescription, Boost, find_member, member_number, tuple_number,
  parameter_number, visit_part, visit_parts, describe,
}

-- The parameter with a name, counted from 0: the first member with that name, or the number that the name
-- writes, among the elements of the tuple.
abbrev pub IsNumber : Boost → ParametersType → Text → ℕ → Type 0
IsNumber b (members keys) value n =
    (pre post : List Text) × (keys ≡ pre ++ (value ∷ post))
    × (n ≡ length pre)
    × (IsIn value pre → ⊥)
IsNumber b (tuple size) value n = (b.try_lexical_convert value ≡ some n) × (n < size)

-- The text of a query, with `$` and a number for each of its parameters, counted from 1.
pub data Renders (b : Boost) (t : ParametersType) : List QueryTextElement → Text → Type 0 where
  no_parts : Renders b t [] []
  part_kept :
      (value : Text) (es : List QueryTextElement) (s : Text)
      → Renders b t es s
      → Renders b t (query_text_part value ∷ es) (value ++ s)
  part_numbered :
      (value : Text) (n : ℕ) (es : List QueryTextElement) (s : Text)
      → IsNumber b t value n
      → Renders b t es s
      → Renders b t (query_parameter_name value ∷ es) ((b'$' ∷ to_string (n + 1)) ++ s)

pub find_member-found :
    (keys : List Text) (value : Text) (n : ℕ) → find_member keys value true n ≡ (true, n)
unfolding find_member
find_member-found [] value n = refl
find_member-found (key ∷ keys) value n = elim (Bool-cases (text_eq key value)) [
  | inl e ↦ rw e (find_member-found keys value n)
  | inr f ↦ rw f (find_member-found keys value n)
]

find_member-IsNumber :
    (b : Boost) (keys : List Text) (value : Text) (n m : ℕ)
    → find_member keys value false n ≡ (true, m)
    → (k : ℕ) × (m ≡ n + k) × IsNumber b (members keys) value k
unfolding find_member
find_member-IsNumber b [] value n m h = absurd (true≢false (sym (ap (λ (p : Bool × ℕ). p.0) h)))
find_member-IsNumber b (key ∷ keys) value n m h = elim (Bool-cases (text_eq key value)) [
  | inl e ↦
      let g : find_member keys value true n ≡ (true, m) = rw e at h in
      let m=n : n ≡ m = ap (λ (p : Bool × ℕ). p.1) (sym (find_member-found keys value n) ∙ g) in
      (0, omega (arith, m=n), ([], keys, ap (λ k. k ∷ keys) (text_eq→eq key value e), refl, λ i. i))
  | inr f ↦
      let g : find_member keys value false (n + 1) ≡ (true, m) = rw f at h in
      let (k, e, p) = find_member-IsNumber b keys value (n + 1) m g in
      let (pre, post, split, place, out) = p in
      (
        k + 1,
        omega (arith, e),
        (
          key ∷ pre,
          post,
          ap (◌∷◌ key) split,
          omega (arith, place),
          λ i. elim i [ inl eq ↦ text_eq-false key value f eq | inr j ↦ out j ],
        ),
      )
]

member_number-ok :
    (query value : Text) (p : Bool × ℕ) (n : ℕ) → member_number query value p ≡ ok n → p ≡ (true, n)
unfolding member_number
member_number-ok query value (true, m) n h = let e : m ≡ n = cc in ap (λ k. (true, k)) e
member_number-ok query value (false, m) n h = absurd cc

tuple_number-ok :
    (query value : Text) (size : ℕ) (o : Option ℕ) (n : ℕ)
    → tuple_number query value size o ≡ ok n
    → (o ≡ some n) × (n < size)
unfolding tuple_number
tuple_number-ok query value size none n h = absurd cc
tuple_number-ok query value size (some m) n h = elim (Bool-cases (leb size m)) [
  | inl l ↦ absurd (let t : thrown _ ≡ ok n = rw l at h in cc)
  | inr l ↦
      let t : ok m ≡ ok n = rw l at h in let e : m ≡ n = cc in (ap (λ k. some k) e, ground arith)
]

pub parameter_number-IsNumber :
    (b : Boost) (query : Text) (t : ParametersType) (value : Text) (n : ℕ)
    → parameter_number b query t value ≡ ok n
    → IsNumber b t value n
unfolding parameter_number
parameter_number-IsNumber b query (members keys) value n h =
    let (k, e, isn) = find_member-IsNumber b keys value 0 n (member_number-ok query value _ n h) in
    subst (IsNumber b (members keys) value) (omega (arith, e)) isn
parameter_number-IsNumber b query (tuple size) value n h =
    tuple_number-ok query value size (b.try_lexical_convert value) n h

pub visit_parts-Renders :
    (b : Boost) (query : TypedQuery) (parts : List QueryTextElement) (s t : Text)
    → visit_parts b query parts s ≡ ok t
    → (u : Text) × Renders b query.parameters_type parts u × (t ≡ s ++ u)
unfolding visit_parts visit_part
visit_parts-Renders b query [] s t h =
    let e : s ≡ t = cc in ([], no_parts, sym e ∙ sym (append-nil s))
visit_parts-Renders b query (query_text_part value ∷ parts) s t h =
    let (u, r, e) = visit_parts-Renders b query parts (s ++ value) t h in
    (value ++ u, part_kept value parts u r, e ∙ append_assoc s value u)
visit_parts-Renders b query (query_parameter_name value ∷ parts) s t h =
    let (s', hs, ht) = bind-ok _ _ t h in
    let (n, hn, es) = bind-ok _ _ s' hs in
    let e' : s ++ (b'$' ∷ to_string (n + 1)) ≡ s' = cc in
    let (u, r, e) = visit_parts-Renders b query parts s' t ht in
    (
      (b'$' ∷ to_string (n + 1)) ++ u,
      part_numbered value n parts u
          (parameter_number-IsNumber b query.name query.parameters_type value n hn) r,
      e ∙ ap (λ (x : Text). x ++ u) (sym e') ∙ append_assoc s (b'$' ∷ to_string (n + 1)) u,
    )

pub describe-Renders :
    (b : Boost) (query : TypedQuery) (parsed : ParsedQuery) (d : QueryDescription)
    → describe b query parsed ≡ ok d
    → (u : Text) × Renders b query.parameters_type parsed.text u
      × (d.text ≡ b.trim u)
      × (d.name ≡ parsed.name)
unfolding describe
describe-Renders b query parsed d h =
    let (t, hv, hd) = bind-ok _ _ d h in
    let (u, r, e) = visit_parts-Renders b query parsed.text [] t hv in
    let ed : record { name = parsed.name; text = b.trim t } ≡ d = cc in
    (
      u,
      r,
      sym (ap (λ (x : QueryDescription). x.text) ed) ∙ ap b.trim e,
      sym (ap (λ (x : QueryDescription). x.name) ed),
    )
