-- ===== src/Results/Examples.antt =====
-- A result of two rows with two columns, a name and a text that may be null.
use ozo_pg.Base.{ℕ, zero, suc, ◌≡◌, refl, List, [], ◌∷◌, Option, none, some, Bool, true, false}
use ozo_pg.Base.Int.{ℤ, pos, negsuc}
use ozo_pg.Io.Stream.{ok}
use ozo_pg.Io.Types.{OidMap, Fields, end, field, required, nullable, built_in, text, type_oid}
use ozo_pg.Io.Stream.{read}
use ozo_pg.Io.Recv.{recv, recv_impl, recv_dynamic}
use ozo_pg.Io.Row.{recv_result, recv_value}
use ozo_pg.Results.{
  PgResult, row_at, recv_result_at, recv_rows, recv_row_at, equal_rows, advance_row,
}
use ozo_pg.Results.Table.{
  table, at_cell, shown, item_at, row_values, recv_result_at-table, row_at-item,
}

-- A column's number, its type and its bytes.
abbrev column_type : ℤ → ℕ
column_type (pos zero) = 19
column_type _ = 25

abbrev bytes : ℤ → ℤ → List ℕ
bytes (pos row) (pos zero) = 0 ∷ row ∷ 99 ∷ []
bytes row col = b'x' ∷ b'y' ∷ []

abbrev is_null_at : ℤ → ℤ → Bool
is_null_at (pos zero) (pos (suc zero)) = true
is_null_at row col = false

abbrev pq : Option ℕ → PgResult
pq res = record {
  ntuples = 2;
  nfields = 2;
  ftype = column_type;
  fformat = λ col. 1;
  getvalue = bytes;
  getlength = λ row col. 2;
  getisnull = is_null_at;
  fnumber = λ name. negsuc 0;
}

abbrev oids : OidMap
oids key = 0

abbrev fields : Fields
fields = field required (text (built_in 19)) (field nullable (text (built_in 25)) end)

received :
    recv_result_at pq oids fields (some 7) []
    ≡ some (ok ((0 ∷ 0 ∷ [], (none, tt)) ∷ (0 ∷ 1 ∷ [], (some (b'x' ∷ b'y' ∷ []), tt)) ∷ []))
unfolding recv_result_at recv_rows recv_row_at equal_rows advance_row recv_value recv recv_impl
    recv_dynamic read type_oid
received = refl

recv_result_at-table_example :
    recv_result_at pq oids fields (some 7) []
    ≡ some (recv_result oids fields (table pq (some 7)) [])
recv_result_at-table_example = recv_result_at-table pq (some 7) oids fields []

row_at-item_example :
    shown pq (some 7) (row_at pq (pos 1) (at_cell (some 7) 1 0))
    ≡ item_at pq (some 7) (pos 1) (row_values pq (some 7) 1)
row_at-item_example = row_at-item pq (some 7) 1 (pos 1)
