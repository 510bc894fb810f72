-- ===== src/Query/Repository/Lookup.antt =====
-- query_conf.h: what is found in the map of the queries.
use ozo_pg.Base.{
  ◌≡◌, refl, sym, ap, ◌∙◌, subst, inl, inr, List, [], ◌∷◌, map, none, some, Option-cases,
  Bool-cases,
}
use ozo_pg.Query.{Text, text_eq}
use ozo_pg.Query.Names.{text_eq→eq, text_eq-ne, text_eq_refl, IsIn, IsDistinct, map-IsIn}
use ozo_pg.Query.Conf.{QueryDescription}
use ozo_pg.Query.Repository.{lookup, insert_unless, insert, insert_all}
use ozo_pg.Query.Conf.Descriptions.{description_name}

insert-same :
    (name text : Text) (queries : List (Text × Text))
    → lookup name queries ≡ none
    → lookup name (insert (name, text) queries) ≡ some text
unfolding insert insert_unless lookup
insert-same name text queries h = rw h (rw (text_eq_refl name) refl)

insert-kept :
    (p : Text × Text) (name text : Text) (queries : List (Text × Text))
    → lookup name queries ≡ some text
    → lookup name (insert p queries) ≡ some text
unfolding insert insert_unless lookup
insert-kept (key, value) name text queries h = elim (Option-cases (lookup key queries)) [
  | inl n ↦ rw n (elim (Bool-cases (text_eq key name)) [
    | inl e ↦ absurd (
        let x : key ≡ name = text_eq→eq key name e in
        let y : lookup name queries ≡ none = ap (λ k. lookup k queries) (sym x) ∙ n in cc)
    | inr f ↦ rw f h
  ])
  | inr (t, e) ↦ rw e h
]

insert-other :
    (key value name : Text) (queries : List (Text × Text))
    → (key ≡ name → ⊥)
    → lookup name queries ≡ none
    → lookup name (insert (key, value) queries) ≡ none
unfolding insert insert_unless lookup
insert-other key value name queries away h = elim (Option-cases (lookup key queries)) [
  | inl n ↦ rw n (rw (text_eq-ne key name away) h)
  | inr (t, e) ↦ rw e h
]

insert_all-kept :
    (ds : List QueryDescription) (name text : Text) (queries : List (Text × Text))
    → lookup name queries ≡ some text
    → lookup name (insert_all ds queries) ≡ some text
unfolding insert_all
insert_all-kept [] name text queries h = h
insert_all-kept (d ∷ ds) name text queries h =
    insert_all-kept ds name text (insert (d.name, d.text) queries)
      (insert-kept (d.name, d.text) name text queries h)

pub insert_all-IsIn :
    (ds : List QueryDescription) (d : QueryDescription) (queries : List (Text × Text))
    → IsDistinct (map description_name ds)
    → IsIn d ds
    → lookup d.name queries ≡ none
    → lookup d.name (insert_all ds queries) ≡ some d.text
unfolding insert_all
insert_all-IsIn [] d queries distinct i h = absurd i
insert_all-IsIn (c ∷ ds) d queries (out, distinct) (inl e) h =
    subst
      (λ (x : QueryDescription).
        lookup x.name (insert_all ds (insert (c.name, c.text) queries)) ≡ some x.text)
      e
      (insert_all-kept ds c.name c.text (insert (c.name, c.text) queries) (
        insert-same c.name c.text queries
          (subst (λ (x : QueryDescription). lookup x.name queries ≡ none) (sym e) h)))
insert_all-IsIn (c ∷ ds) d queries (out, distinct) (inr i) h =
    insert_all-IsIn ds d (insert (c.name, c.text) queries) distinct i (
      insert-other c.name c.text d.name queries
        (λ e. out (
          subst (λ x. IsIn x (map description_name ds)) (sym e) (map-IsIn description_name d ds i)))
        h)
