-- ===== src/Query/Conf/Visit.antt =====
-- query_conf.h: `line_visitor` against a description of what a configuration's lines say.
use mathlib.Core.List.{append_assoc, append-nil}
use ozo_pg.Base.{
  ◌≡◌, refl, sym, ap, ◌∙◌, subst, ◌↔◌, inl, inr, List, [], ◌∷◌, ◌++◌, none, some, Option-cases, ok,
  thrown, bind-ok,
}
use ozo_pg.Query.{Text}
use ozo_pg.Query.Conf.{
  QueryLine, query_line_comment, query_line_text, QueryTextElement, ParsedQuery, Boost, LineVisitor,
  initial, header_parsed, insert_back, parse_header_at, parse_text_at, on_text, visit_line,
  visit_lines, parse_query_conf_elements,
}

-- Lines that have the text of a query, and then further queries: a comment that is a header starts a
-- query, any other comment is passed over, and the texts are put together.
pub data Body (b : Boost) : List QueryLine → List QueryTextElement → List ParsedQuery → Type 0 where
  body_end : Body b [] [] []
  body_remark :
      (c : Text) (ls : List QueryLine) (es : List QueryTextElement) (qs : List ParsedQuery)
      → b.parse_header c ≡ none
      → Body b ls es qs
      → Body b (query_line_comment c ∷ ls) es qs
  body_header :
      (c name : Text) (ls : List QueryLine) (es : List QueryTextElement) (qs : List ParsedQuery)
      → b.parse_header c ≡ some name
      → Body b ls es qs
      → Body b (query_line_comment c ∷ ls) [] (record { name = name; text = es } ∷ qs)
  body_text :
      (t : Text) (fs : List QueryTextElement) (ls : List QueryLine) (es : List QueryTextElement)
      (qs : List ParsedQuery)
      → b.parse_text t ≡ some fs
      → Body b ls es qs
      → Body b (query_line_text t ∷ ls) (fs ++ es) qs

-- A configuration: comments that are no headers, and queries.
pub data IsConf (b : Boost) : List QueryLine → List ParsedQuery → Type 0 where
  none_left : IsConf b [] []
  remark_first :
      (c : Text) (ls : List QueryLine) (qs : List ParsedQuery)
      → b.parse_header c ≡ none
      → IsConf b ls qs
      → IsConf b (query_line_comment c ∷ ls) qs
  header_first :
      (c name : Text) (ls : List QueryLine) (es : List QueryTextElement) (qs : List ParsedQuery)
      → b.parse_header c ≡ some name
      → Body b ls es qs
      → IsConf b (query_line_comment c ∷ ls) (record { name = name; text = es } ∷ qs)

insert_back-last :
    (t : List QueryTextElement) (ps : List ParsedQuery) (q : ParsedQuery)
    → insert_back t (ps ++ (q ∷ [])) ≡ ps ++ (record q { text = q.text ++ t } ∷ [])
unfolding insert_back
insert_back-last t [] q = refl
insert_back-last t (p ∷ []) q = refl
insert_back-last t (p ∷ r ∷ ps) q = ap (◌∷◌ p) (insert_back-last t (r ∷ ps) q)

abbrev in_query : List ParsedQuery → Text → List QueryTextElement → LineVisitor
in_query ps name text = record {
  state = header_parsed;
  queries = ps ++ (record { name = name; text = text } ∷ []);
}

module _ (b : Boost) where
  -- What the visitor has read, where it goes on in a query.
  visit_lines-Body :
      (ls : List QueryLine) (ps : List ParsedQuery) (n : Text) (t : List QueryTextElement)
      (v : LineVisitor)
      → visit_lines b ls (in_query ps n t) ≡ ok v
      → (es : List QueryTextElement) × (qs : List ParsedQuery) × Body b ls es qs
        × (v.queries ≡ ps ++ (record { name = n; text = t ++ es } ∷ qs))
  unfolding visit_lines visit_line parse_header_at on_text parse_text_at
  visit_lines-Body [] ps n t v h =
      let e : in_query ps n t ≡ v = cc in
      (
        [],
        [],
        body_end,
        sym (ap (λ (x : LineVisitor). x.queries) e)
            ∙ ap (λ (x : List QueryTextElement). ps ++ (record { name = n; text = x } ∷ []))
                (sym (append-nil t)),
      )
  visit_lines-Body (query_line_comment c ∷ ls) ps n t v h = elim (Option-cases (b.parse_header c)) [
    | inl o ↦
        let (es, qs, body, e) = visit_lines-Body ls ps n t v (rw o at h) in
        (es, qs, body_remark c ls es qs o body, e)
    | inr (name, o) ↦
        let (es, qs, body, e) =
          visit_lines-Body ls (ps ++ (record { name = n; text = t } ∷ [])) name [] v (rw o at h) in
        (
          [],
          record { name = name; text = es } ∷ qs,
          body_header c name ls es qs o body,
          e
              ∙ append_assoc ps (record { name = n; text = t } ∷ [])
                  (record { name = name; text = es } ∷ qs)
              ∙ ap
                  (λ (x : List QueryTextElement).
                    ps ++ (record { name = n; text = x } ∷ record { name = name; text = es } ∷ qs))
                  (sym (append-nil t)),
        )
  ]
  visit_lines-Body (query_line_text s ∷ ls) ps n t v h = elim (Option-cases (b.parse_text s)) [
    | inl o ↦ absurd (let x : thrown _ ≡ ok v = rw o at h in cc)
    | inr (fs, o) ↦
        let g : visit_lines b ls (record {
          state = header_parsed;
          queries = insert_back fs (ps ++ (record { name = n; text = t } ∷ []));
        })
            ≡ ok v =
          rw o at h in
        let (es, qs, body, e) =
          visit_lines-Body ls ps n (t ++ fs) v
            (rw (insert_back-last fs ps (record { name = n; text = t })) at g) in
        (
          fs ++ es,
          qs,
          body_text s fs ls es qs o body,
          e
              ∙ ap (λ (x : List QueryTextElement). ps ++ (record { name = n; text = x } ∷ qs))
                  (append_assoc t fs es),
        )
  ]

  Body-visit_lines :
      (ls : List QueryLine) (es : List QueryTextElement) (qs ps : List ParsedQuery) (n : Text)
      (t : List QueryTextElement)
      → Body b ls es qs
      → visit_lines b ls (in_query ps n t)
        ≡ ok (record {
          state = header_parsed;
          queries = ps ++ (record { name = n; text = t ++ es } ∷ qs);
        })
  unfolding visit_lines visit_line parse_header_at on_text parse_text_at
  Body-visit_lines _ _ _ ps n t body_end =
      ap (λ (x : List QueryTextElement). ok (in_query ps n x)) (sym (append-nil t))
  Body-visit_lines _ _ _ ps n t (body_remark c ls es qs o body) =
      rw o (Body-visit_lines ls es qs ps n t body)
  Body-visit_lines _ _ _ ps n t (body_header c name ls es qs o body) = rw o (
      Body-visit_lines ls es qs (ps ++ (record { name = n; text = t } ∷ [])) name [] body
      ∙ ap (λ (x : List ParsedQuery). ok (record { state = header_parsed; queries = x }))
          (append_assoc ps (record { name = n; text = t } ∷ [])
              (record { name = name; text = es } ∷ qs)
            ∙ ap
                (λ (x : List QueryTextElement).
                  ps ++ (record { name = n; text = x } ∷ record { name = name; text = es } ∷ qs))
                (sym (append-nil t))))
  Body-visit_lines _ _ _ ps n t (body_text s fs ls es qs o body) = rw o (
      rw (insert_back-last fs ps (record { name = n; text = t })) (
        Body-visit_lines ls es qs ps n (t ++ fs) body
        ∙ ap
            (λ (x : List QueryTextElement). ok (record {
              state = header_parsed;
              queries = ps ++ (record { name = n; text = x } ∷ qs);
            }))
            (append_assoc t fs es)))

abbrev at_first : LineVisitor
at_first = record { state = initial; queries = [] }

module _ (b : Boost) where
  visit_lines-IsConf :
      (ls : List QueryLine) (v : LineVisitor)
      → visit_lines b ls at_first ≡ ok v
      → IsConf b ls v.queries
  unfolding visit_lines visit_line parse_header_at on_text parse_text_at
  visit_lines-IsConf [] v h =
      let e : at_first ≡ v = cc in subst (λ (x : LineVisitor). IsConf b [] x.queries) e none_left
  visit_lines-IsConf (query_line_comment c ∷ ls) v h = elim (Option-cases (b.parse_header c)) [
    | inl o ↦ remark_first c ls v.queries o (visit_lines-IsConf ls v (rw o at h))
    | inr (name, o) ↦
        let (es, qs, body, e) = visit_lines-Body b ls [] name [] v (rw o at h) in
        subst (IsConf b (query_line_comment c ∷ ls)) (sym e) (header_first c name ls es qs o body)
  ]
  visit_lines-IsConf (query_line_text s ∷ ls) v h = absurd cc

  IsConf-visit_lines :
      (ls : List QueryLine) (qs : List ParsedQuery)
      → IsConf b ls qs
      → (v : LineVisitor) × (visit_lines b ls at_first ≡ ok v) × (v.queries ≡ qs)
  unfolding visit_lines visit_line parse_header_at on_text parse_text_at
  IsConf-visit_lines _ _ none_left = (at_first, refl, refl)
  IsConf-visit_lines _ _ (remark_first c ls qs o conf) = rw o (IsConf-visit_lines ls qs conf)
  IsConf-visit_lines _ _ (header_first c name ls es qs o body) = (
    record { state = header_parsed; queries = record { name = name; text = es } ∷ qs },
    rw o (Body-visit_lines b ls es qs [] name [] body),
    refl,
  )

  -- The lines of a configuration are read as some queries exactly when they are, in order, comments that
  -- are no headers, and then for each query its header, with its texts, put together, and comments behind
  -- it.
  pub parse_query_conf_elements_iff :
      (ls : List QueryLine) (qs : List ParsedQuery)
      → (parse_query_conf_elements b ls ≡ ok qs) ↔ IsConf b ls qs
  unfolding parse_query_conf_elements
  parse_query_conf_elements_iff ls qs = (
    λ h.
        let (v, hv, e) =
          bind-ok (visit_lines b ls at_first) (λ (x : LineVisitor). ok x.queries) qs h in
        let e' : v.queries ≡ qs = cc in subst (IsConf b ls) e' (visit_lines-IsConf ls v hv),
    λ conf. let (v, hv, e) = IsConf-visit_lines ls qs conf in rw hv (ap (λ x. ok x) e),
  )
