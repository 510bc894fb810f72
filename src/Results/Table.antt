-- ===== src/Results/Table.antt =====
-- result.h, io/recv.h: what the views of a result show, and what the loops over them receive.
use native.Mathlib.Nat.{add-zero}
use ozo_pg.Base.{
  ℕ, zero, suc, ◌+◌, get_elem?, ltb, lt→ltb, ◌≡◌, refl, ap, ◌∙◌, List, [], ◌∷◌, ◌++◌, Option, none,
  some, true, false, length, ◌==◌, Bool-cases, ◌⊎◌, inl, inr, ==→eq, ==_refl, ==-false_of_ne,
  if◌then◌else◌, arith,
}
use ozo_pg.Base.Int.{ℤ, pos, negsuc}
use ozo_pg.Io.Stream.{IoError, Result, ok, err}
use ozo_pg.Io.Types.{OidMap, Fields, end, field, Els, fields_number, fresh_fields}
use ozo_pg.Io.Row.{Value, Row, recv_items, recv_row, recv_result}
use ozo_pg.Results.{
  PgResult, Coordinates, advance_column, advance_row, equal_rows, same_pointer, to_value, row_size,
  begin, result_end, result_size, recv_items_at, recv_row_at, row_at, Access, found, thrown,
  recv_rows, recv_result_at,
}

abbrev pub at_cell : Option ℕ → ℕ → ℕ → Coordinates
at_cell res i j = record { res = res; row = pos i; col = pos j }

Result-cases : {A : Type 0} (r : Result A) → ((e : IoError) × (r ≡ err e)) ⊎ ((a : A) × (r ≡ ok a))
Result-cases (err e) = inl (e, refl)
Result-cases (ok a) = inr (a, refl)

module _ (pq : Option ℕ → PgResult) (res : Option ℕ) where
  -- Some values of a row, from a column on.
  abbrev pub cells : ℕ → ℕ → ℕ → List Value
  cells zero i j = []
  cells (suc n) i j = to_value pq (at_cell res i j) ∷ cells n i (j + 1)

  abbrev pub row_values : ℕ → Row
  row_values i = cells (pq res).nfields i 0

  abbrev pub rows_from : ℕ → ℕ → List Row
  rows_from zero i = []
  rows_from (suc n) i = row_values i ∷ rows_from n (i + 1)

  -- The result as a table: the values of each row, in order.
  abbrev pub table : List Row
  table = rows_from (pq res).ntuples 0

  items_at :
      (oids : OidMap) (fs : Fields) (n i j : ℕ) (out : Els fs)
      → fields_number fs ≡ n
      → recv_items_at pq oids fs (at_cell res i j) out ≡ recv_items oids fs (cells n i j) out
  unfolding recv_items_at recv_items advance_column
  items_at oids end n i j out h = refl
  items_at oids (field p t fs) zero i j out h = absurd (omega arith)
  items_at oids (field p t fs) (suc n) i j out h =
      rw (items_at oids fs n i (j + 1) out.1 (omega arith)) refl

  length-cells : (n i j : ℕ) → length (cells n i j) ≡ n
  length-cells zero i j = refl
  length-cells (suc n) i j = ap suc (length-cells n i (j + 1))

  row_at_lem :
      (oids : OidMap) (fs : Fields) (i : ℕ) (out : Els fs)
      → recv_row_at pq oids fs (at_cell res i 0) out ≡ recv_row oids fs (row_values i) out
  unfolding recv_row_at recv_row row_size
  row_at_lem oids fs i out =
      let n = (pq res).nfields in
      rw (length-cells n i 0) (elim (Bool-cases (fields_number fs == n)) [
        | inl same ↦ rw same (items_at oids fs n i 0 out (==→eq _ _ same))
        | inr other ↦ rw other refl
      ])

  same_pointer_refl : (p : Option ℕ) → same_pointer p p ≡ true
  same_pointer_refl none = refl
  same_pointer_refl (some p) = ==_refl p

  equal_rows-at : (i j : ℕ) → equal_rows (at_cell res i 0) (at_cell res j 0) ≡ (i == j)
  unfolding equal_rows
  equal_rows-at i j = rw (same_pointer_refl res) refl

  rows_at :
      (oids : OidMap) (fs : Fields) (n i last : ℕ) (out : List (Els fs))
      → last ≡ i + n
      → recv_rows pq oids fs (suc n) (at_cell res i 0) (at_cell res last 0) out
        ≡ some (recv_result oids fs (rows_from n i) out)
  unfolding recv_rows recv_result advance_row
  rows_at oids fs zero i last out h =
      let here : (i == last) ≡ true = rw (h, add-zero i) (==_refl i) in
      rw (equal_rows-at i last ∙ here) refl
  rows_at oids fs (suc n) i last out h =
      let differ = equal_rows-at i last ∙ ==-false_of_ne i last (λ e. omega arith) in
      rw (differ, row_at_lem oids fs i (fresh_fields fs))
        (elim (Result-cases (recv_row oids fs (row_values i) (fresh_fields fs))) [
          | inl (e, is) ↦ rw is refl
          | inr (v, is) ↦ rw is (rows_at oids fs n (i + 1) last (out ++ (v ∷ [])) (omega arith))
        ])

  -- The loop over a result ends, and receives what `recv_result` does of the table that the result holds.
  pub recv_result_at-table :
      (oids : OidMap) (fs : Fields) (out : List (Els fs))
      → recv_result_at pq oids fs res out ≡ some (recv_result oids fs table out)
  unfolding recv_result_at begin result_end result_size advance_row
  recv_result_at-table oids fs out =
      rows_at oids fs (pq res).ntuples 0 (0 + (pq res).ntuples) out refl

  abbrev pub shown : Access → Option Value
  shown (thrown e) = none
  shown (found v) = some (to_value pq v)

  abbrev pub item_at : ℤ → List Value → Option Value
  item_at (negsuc i) vs = none
  item_at (pos i) vs = get_elem? vs i

  cells-nth :
      (n i j k : ℕ)
      → get_elem? (cells n i j) k
        ≡ (if ltb k n then some (to_value pq (at_cell res i (j + k))) else none)
  cells-nth zero i j k = ground arith
  cells-nth (suc n) i j zero =
      let first : ltb 0 (suc n) ≡ true = lt→ltb 0 (suc n) (omega arith) in
      rw (add-zero j, first) refl
  cells-nth (suc n) i j (suc k) =
      let next : (j + 1) + k ≡ j + suc k = omega arith in
      let less_next : ltb (suc k) (suc n) ≡ ltb k n = ground arith in
      rw (less_next, ← next) (cells-nth n i (j + 1) k)

  -- `at` of a row shows the value that stands at the index, counted from 0, in the row of the table, and throws
  -- for an index below 0 or beyond the last.
  pub row_at-item :
      (i : ℕ) (index : ℤ) → shown (row_at pq index (at_cell res i 0)) ≡ item_at index (row_values i)
  unfolding row_at row_size advance_column
  row_at-item i (pos k) =
      let size = (pq res).nfields in
      let not_below : ltb k 0 ≡ false = ground arith in
      elim (Bool-cases (ltb k size)) [
        | inl in_range ↦ rw (cells-nth size i 0 k, in_range, not_below) refl
        | inr beyond ↦ rw (cells-nth size i 0 k, beyond, not_below) refl
      ]
  row_at-item i (negsuc k) = refl
