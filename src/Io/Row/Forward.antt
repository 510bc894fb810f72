-- ===== src/Io/Row/Forward.antt =====
-- io/recv.h: the `recv_result` that writes through a forward iterator.
use ozo_pg.Base.{
  ◌≡◌, refl, sym, ap, ◌∙◌, ◌⊎◌, inl, inr, List, [], ◌∷◌, ◌++◌, Option, none, some, length,
  replicate,
}
use mathlib.Core.List.{append_assoc, append-nil}
use ozo_pg.Io.Stream.{IoError, Result, ok, err}
use ozo_pg.Io.Types.{OidMap, Fields, Els, fresh_fields}
use ozo_pg.Io.Row.{Row, recv_row, recv_result}

-- The objects that the iterator goes over come to hold what was received. `none` is for an iterator that is
-- past the last of them.
abbrev pub in_front : {A : Type 0} → A → Option (Result (List A)) → Option (Result (List A))
in_front v none = none
in_front v (some (err e)) = some (err e)
in_front v (some (ok vs)) = some (ok (v ∷ vs))

abbrev pub row_written :
    {A : Type 0} → Result A → Option (Result (List A)) → Option (Result (List A))
row_written (err e) rest = some (err e)
row_written (ok v) rest = in_front v rest

unfoldable pub recv_result_forward :
    OidMap → (fs : Fields) → List Row → List (Els fs) → Option (Result (List (Els fs)))
recv_result_forward oids fs [] objects = some (ok objects)
recv_result_forward oids fs (row ∷ rows) [] = none
recv_result_forward oids fs (row ∷ rows) (object ∷ objects) =
    row_written (recv_row oids fs row object) (recv_result_forward oids fs rows objects)

-- The objects of a result, behind others and in front of others.
abbrev pub behind : {A : Type 0} → List A → Result (List A) → Result (List A)
behind out (err e) = err e
behind out (ok vs) = ok (out ++ vs)

abbrev pub before : {A : Type 0} → List A → Result (List A) → Result (List A)
before rest (err e) = err e
before rest (ok vs) = ok (vs ++ rest)

module _ {A : Type 0} where
  Result-cases : (r : Result A) → ((e : IoError) × (r ≡ err e)) ⊎ ((a : A) × (r ≡ ok a))
  Result-cases (err e) = inl (e, refl)
  Result-cases (ok a) = inr (a, refl)

  behind-behind :
      (out mid : List A) (r : Result (List A)) → behind out (behind mid r) ≡ behind (out ++ mid) r
  behind-behind out mid (err e) = refl
  behind-behind out mid (ok vs) = ap ok (sym (append_assoc out mid vs))

  in_front-before :
      (v : A) (r : Result (List A)) (rest : List A)
      → in_front v (some (before rest r)) ≡ some (before rest (behind (v ∷ []) r))
  in_front-before v (err e) rest = refl
  in_front-before v (ok vs) rest = refl

module _ (oids : OidMap) (fs : Fields) where
  recv_result-behind :
      (rows : List Row) (out : List (Els fs))
      → recv_result oids fs rows out ≡ behind out (recv_result oids fs rows [])
  unfolding recv_result
  recv_result-behind [] out = ap ok (sym (append-nil out))
  recv_result-behind (row ∷ rows) out =
      elim (Result-cases (recv_row oids fs row (fresh_fields fs))) [
        | inl (e, failed) ↦ rw failed refl
        | inr (v, received) ↦ rw received (
            recv_result-behind rows (out ++ (v ∷ []))
            ∙ sym (behind-behind out (v ∷ []) (recv_result oids fs rows []))
            ∙ ap (behind out) (sym (recv_result-behind rows (v ∷ []))))
      ]

  -- Over as many newly made objects as there are rows, and any others behind them, `recv_result` through a
  -- forward iterator fails as it does through an insert iterator into an empty container, or it gives the
  -- same objects, with the others behind them unchanged.
  pub recv_result_forward-recv_result :
      (rows : List Row) (rest : List (Els fs))
      → recv_result_forward oids fs rows (replicate (length rows) (fresh_fields fs) ++ rest)
        ≡ some (before rest (recv_result oids fs rows []))
  unfolding recv_result_forward recv_result
  recv_result_forward-recv_result [] rest = refl
  recv_result_forward-recv_result (row ∷ rows) rest =
      elim (Result-cases (recv_row oids fs row (fresh_fields fs))) [
        | inl (e, failed) ↦ rw failed refl
        | inr (v, received) ↦ rw received (
            ap (in_front v) (recv_result_forward-recv_result rows rest)
            ∙ in_front-before v (recv_result oids fs rows []) rest
            ∙ ap (λ r. some (before rest r)) (sym (recv_result-behind rows (v ∷ []))))
      ]
