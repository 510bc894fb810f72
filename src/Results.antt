-- ===== src/Results.antt =====
-- result.h, impl/result.h: results, their rows and values as views of a result of libpq, and the loops of
-- io/recv.h over them.
pub mod Table
mod Examples
use ozo_pg.Base.{
  ℕ, zero, suc, ◌<◌, List, [], ◌∷◌, ◌++◌, Option, none, some, Bool, true, false, not, ◌&&◌, ◌||◌,
  ltb, ◌==◌, if◌then◌else◌, take,
}
use ozo_pg.Base.Int.{ℤ, pos, negsuc, ◌+ℤ◌, less}
use ozo_pg.Io.Stream.{Result, ok, err, ◌>>=◌, range_error}
use ozo_pg.Io.Types.{OidMap, Fields, end, field, Els, fields_number, fresh_fields}
use ozo_pg.Io.Row.{Value, recv_value}

-- The functions of libpq on one result; `fnumber` is -1 for a name that no column has.
pub record PgResult : Type 0 where
  pub ntuples : ℕ
  pub nfields : ℕ
  pub ftype : ℤ → ℕ
  pub fformat : ℤ → ℕ
  pub getvalue : ℤ → ℤ → List ℕ
  pub getlength : ℤ → ℤ → ℕ
  pub getisnull : ℤ → ℤ → Bool
  pub fnumber : List ℕ → ℤ

-- The pointer to the result, `none` for a null pointer.
pub record Coordinates : Type 0 where
  pub res : Option ℕ
  pub row : ℤ
  pub col : ℤ

abbrev same_pointer : Option ℕ → Option ℕ → Bool
same_pointer none none = true
same_pointer none (some q) = false
same_pointer (some p) none = false
same_pointer (some p) (some q) = p == q

abbrev same_int : ℤ → ℤ → Bool
same_int (pos a) (pos b) = a == b
same_int (pos a) (negsuc b) = false
same_int (negsuc a) (pos b) = false
same_int (negsuc a) (negsuc b) = a == b

pub data AccessError : Type 0 where
  out_of_range : AccessError

-- What `at` gives, or throws.
pub data Access : Type 0 where
  found : Coordinates → Access
  thrown : AccessError → Access

-- `row::const_iterator`: `++` and `--` advance by 1 and -1.
unfoldable pub advance_column : ℤ → Coordinates → Coordinates
advance_column n c = record c { col = c.col +ℤ n }

unfoldable pub equal_columns : Coordinates → Coordinates → Bool
equal_columns c d = same_pointer c.res d.res && same_int c.col d.col && same_int c.row d.row

-- `basic_result::const_iterator`: the column is not compared.
unfoldable pub advance_row : ℤ → Coordinates → Coordinates
advance_row n c = record c { row = c.row +ℤ n }

unfoldable pub equal_rows : Coordinates → Coordinates → Bool
equal_rows c d = same_pointer c.res d.res && same_int c.row d.row

abbrev pub go_on : {A B : Type 0} → Result A → (A → Option (Result B)) → Option (Result B)
go_on (err e) next = some (err e)
go_on (ok a) next = next a

module _ (pq : Option ℕ → PgResult) where
  -- `value`
  unfoldable pub oid : Coordinates → ℕ
  oid v = (pq v.res).ftype v.col

  unfoldable pub is_text : Coordinates → Bool
  is_text v = (pq v.res).fformat v.col == 0

  unfoldable pub is_binary : Coordinates → Bool
  is_binary v = (pq v.res).fformat v.col == 1

  unfoldable pub is_null : Coordinates → Bool
  is_null v = (pq v.res).getisnull v.row v.col

  unfoldable pub size : Coordinates → ℕ
  size v = (pq v.res).getlength v.row v.col

  -- The bytes at the pointer, of which those up to the size are the value's.
  unfoldable pub bytes_at : Coordinates → List ℕ
  bytes_at v = (pq v.res).getvalue v.row v.col

  -- What `recv` takes of a value: the stream over its bytes, its size or that of a null.
  unfoldable pub to_value : Coordinates → Value
  unfolding oid is_null size bytes_at
  to_value v = record {
    oid = oid v;
    bytes = if is_null v then none else some (take (size v) (bytes_at v));
  }

  -- `row`
  unfoldable pub row_size : Coordinates → ℕ
  row_size first = (pq first.res).nfields

  unfoldable pub row_end : Coordinates → Coordinates
  unfolding row_size advance_column
  row_end first = advance_column (pos (row_size first)) first

  unfoldable pub row_find : List ℕ → Coordinates → Coordinates
  unfolding row_end advance_column
  row_find name first =
      let i = (pq first.res).fnumber name in
      if same_int i (negsuc 0) then row_end first else advance_column i first

  unfoldable pub row_at : ℤ → Coordinates → Access
  unfolding row_size advance_column
  row_at index first =
      if less index (pos 0) || not (less index (pos (row_size first)))
      then thrown out_of_range
      else found (advance_column index first)

  unfoldable pub row_at_name : List ℕ → Coordinates → Access
  unfolding row_find row_end equal_columns
  row_at_name name first =
      if equal_columns (row_find name first) (row_end first)
      then thrown out_of_range
      else found (row_find name first)

  -- `basic_result`: its handle is empty once it has been moved from.
  unfoldable pub begin : Option ℕ → Coordinates
  begin handle = record { res = handle; row = pos 0; col = pos 0 }

  unfoldable pub result_size : Option ℕ → ℕ
  result_size handle = (pq handle).ntuples

  unfoldable pub result_end : Option ℕ → Coordinates
  unfolding begin result_size advance_row
  result_end handle = advance_row (pos (result_size handle)) (begin handle)

  unfoldable pub result_at : ℤ → Option ℕ → Access
  unfolding begin result_size advance_row
  result_at i handle =
      if less i (pos 0) || not (less i (pos (result_size handle)))
      then thrown out_of_range
      else found (advance_row i (begin handle))

  -- The loop of `recv_row` over the items of a sequence.
  unfoldable pub recv_items_at : OidMap → (fs : Fields) → Coordinates → Els fs → Result (Els fs)
  unfolding to_value advance_column
  recv_items_at oids end i out = ok tt
  recv_items_at oids (field p t fs) i out = do
    item ← recv_value oids p t (to_value i) out.0
    items ← recv_items_at oids fs (advance_column (pos 1) i) out.1
    ok (item, items)

  unfoldable pub recv_row_at : OidMap → (fs : Fields) → Coordinates → Els fs → Result (Els fs)
  unfolding recv_items_at row_size
  recv_row_at oids fs row out =
      if fields_number fs == row_size row then recv_items_at oids fs row out else err range_error

  -- `for (auto row : in)`, with an insert iterator. `none` is for a loop that goes on.
  unfoldable pub recv_rows :
      OidMap
      → (fs : Fields) → ℕ
      → Coordinates
      → Coordinates
      → List (Els fs)
      → Option (Result (List (Els fs)))
  recv_rows oids fs zero i last out = none
  recv_rows oids fs (suc rounds) i last out =
      if equal_rows i last
      then some (ok out)
      else go_on (recv_row_at oids fs i (fresh_fields fs))
          (λ v. recv_rows oids fs rounds (advance_row (pos 1) i) last (out ++ (v ∷ [])))

  unfoldable pub recv_result_at :
      OidMap → (fs : Fields) → Option ℕ → List (Els fs) → Option (Result (List (Els fs)))
  unfolding recv_rows begin result_end result_size
  recv_result_at oids fs handle out =
      recv_rows oids fs (suc (result_size handle)) (begin handle) (result_end handle) out
