-- ===== src/Io/Examples.antt =====
-- Objects, queries and results on which the theorems on io/ are run.
use ozo_pg.Base.{
  ℕ, ◌+◌, ◌^◌, ◌<◌, ◌≡◌, ◌≢◌, List, [], ◌∷◌, ◌++◌, Option, none, some, refl, ◌==◌, if◌then◌else◌,
  length, map, replicate, arith,
}
use ozo_pg.Io.Types.{
  required, nullable, built_in, custom, resizable, fixed, OidMap, PgType, Fields, integral, text,
  array, composite, end, field, Els, type_oid, fresh, fresh_fields,
}
use ozo_pg.Io.Endian.{big_endian}
use ozo_pg.Io.SizeOf.{size_of_impl}
use ozo_pg.Io.Stream.{stream, ok, err, bad_array_size}
use ozo_pg.Io.Send.{send_impl, write_raw}
use ozo_pg.Io.Send.Wire.{wire, data_frame, data_frames, array_header, IsSendable}
use ozo_pg.Io.Send.Correct.{send_impl-wire}
use ozo_pg.Io.Send.Nulls.{size_of_impl-ne-wire}
use ozo_pg.Io.Recv.{recv_impl}
use ozo_pg.Io.Recv.RoundTrip.{recv_impl-send_impl, IsReceivable}
use ozo_pg.Io.Recv.ArrayShape.{recv_impl-fixed_size}
use ozo_pg.Io.Query.{make_binary_query}
use ozo_pg.Io.Query.Values.{make_binary_query-empty_text}
use ozo_pg.Io.Row.{recv_result}
use ozo_pg.Io.Row.Forward.{recv_result_forward, before, recv_result_forward-recv_result}
use ozo_pg.Io.Row.ByName.{NamedRow, find, recv_struct, recv_struct-sent}
use ozo_pg.Io.Row.RoundTrip.{recv_result-sent_row, sent_row}

abbrev oids : OidMap
oids k = 16000 + k

abbrev int4 : PgType
int4 = integral (built_in 23) 4

abbrev int2 : PgType
int2 = integral (built_in 21) 2

abbrev words : PgType
words = array (built_in 1009) resizable nullable (text (built_in 25))

-- A composite of a number, and of an optional array of texts of which some are null.
abbrev pair_fields : Fields
pair_fields = field required int4 (field nullable words end)

abbrev pair : PgType
pair = composite (custom 7) pair_fields

abbrev pair_value : Els pair_fields
pair_value = (70000, (some (some (104 ∷ 105 ∷ []) ∷ none ∷ []), tt))

pair-length : length (wire oids pair pair_value) < 2 ^ 31
unfolding wire data_frame data_frames array_header big_endian
pair-length = omega arith

words-length : length (wire oids words (some (104 ∷ 105 ∷ []) ∷ none ∷ [])) < 2 ^ 31
unfolding wire data_frame data_frames array_header big_endian
words-length = omega arith

pair-IsSendable : IsSendable oids pair pair_value
unfolding wire data_frame data_frames array_header big_endian
pair-IsSendable =
    ((tt, omega arith), (((((tt, omega arith), (tt, tt)), omega arith, tt), words-length), tt))

pair-IsReceivable : IsReceivable oids pair pair_value
unfolding wire data_frame data_frames array_header big_endian type_oid
pair-IsReceivable = (
  omega arith,
  (
    (omega arith, omega arith),
    omega arith,
    (
      ((((omega arith, omega arith), (tt, tt)), omega arith, tt, omega arith), words-length),
      omega arith,
      tt,
    ),
  ),
)

send_impl-wire_example :
    (send_impl oids pair [] pair_value ≡ [] ++ wire oids pair pair_value)
    × (size_of_impl pair pair_value ≡ length (wire oids pair pair_value))
send_impl-wire_example = send_impl-wire oids pair pair_value [] pair-IsSendable pair-length

recv_impl-send_impl_example :
    recv_impl oids pair
      (size_of_impl pair pair_value)
      (fresh pair)
      (stream (send_impl oids pair [] pair_value ++ (5 ∷ [])))
    ≡ ok (pair_value, stream (5 ∷ []))
recv_impl-send_impl_example =
    recv_impl-send_impl oids pair pair_value (5 ∷ []) pair-IsSendable pair-IsReceivable pair-length

-- The parameters of a query: a composite, and an empty text.
abbrev params : Fields
params = field required pair (field required (text (built_in 25)) end)

abbrev query_text : List ℕ
query_text = 83 ∷ []

make_binary_query-empty_text_example :
    make_binary_query oids query_text (field nullable (text (built_in 25)) end) (some [], tt)
    ≡ make_binary_query oids query_text (field nullable (text (built_in 25)) end) (none, tt)
make_binary_query-empty_text_example = make_binary_query-empty_text oids query_text (built_in 25)

-- Two rows of a nullable text.
abbrev columns : Fields
columns = field nullable (text (built_in 25)) end

recv_result-sent_row_example :
    recv_result oids columns
      (map (sent_row oids columns) ((some (104 ∷ []), tt) ∷ (none, tt) ∷ []))
      []
    ≡ ok ([] ++ ((some (104 ∷ []), tt) ∷ (none, tt) ∷ []))
unfolding wire
recv_result-sent_row_example =
    recv_result-sent_row oids columns ((some (104 ∷ []), tt) ∷ (none, tt) ∷ []) []
      (((tt, omega arith, omega arith), tt), ((tt, tt), tt))

-- A row whose column is null, over two objects.
recv_result_forward-recv_result_example :
    recv_result_forward oids columns
      (sent_row oids columns (none, tt) ∷ [])
      (replicate 1 (fresh_fields columns) ++ ((some (104 ∷ []), tt) ∷ []))
    ≡ some (
        before
          ((some (104 ∷ []), tt) ∷ [])
          (recv_result oids columns (sent_row oids columns (none, tt) ∷ []) []))
recv_result_forward-recv_result_example =
    recv_result_forward-recv_result oids columns (sent_row oids columns (none, tt) ∷ [])
      ((some (104 ∷ []), tt) ∷ [])

size_of_impl-ne-wire_example :
    size_of_impl (array (built_in 1007) resizable nullable int4) (some 1 ∷ none ∷ [])
    ≢ length (wire oids (array (built_in 1007) resizable nullable int4) (some 1 ∷ none ∷ []))
size_of_impl-ne-wire_example =
    size_of_impl-ne-wire oids (built_in 1007) (built_in 23) resizable 4 (some 1 ∷ none ∷ [])
      (omega arith) (omega arith) (omega arith) (omega arith) (omega arith)

recv_impl-fixed_size_example :
    recv_impl oids
      (array (built_in 1007) (fixed 1) required int4)
      28
      (0 ∷ [])
      (stream (wire oids (array (built_in 1007) resizable required int4) (1 ∷ 2 ∷ []) ++ []))
    ≡ err bad_array_size
unfolding type_oid
recv_impl-fixed_size_example =
    recv_impl-fixed_size oids (built_in 1007) resizable 1 required int4 28 (0 ∷ []) (1 ∷ 2 ∷ []) []
      (omega arith) (omega arith) (omega arith) (λ e. absurd (omega arith))

-- A structure of two texts, the second of them null, and a row with their columns the other way round.
abbrev members : Fields
members = field nullable (text (built_in 25)) (field nullable (text (built_in 25)) end)

abbrev first : List ℕ → ℕ
first [] = 0
first (c ∷ cs) = c

abbrev position : List ℕ → List (List ℕ) → Option ℕ
position name [] = none
position name ([] ∷ names) = none
position name ((c ∷ cs) ∷ names) =
    let further = position name names in
    if c == first name then some 0 else elim further [ none ↦ none | some i ↦ some (i + 1) ]

abbrev by_letter : List (List ℕ) → List ℕ → Option ℕ
by_letter names name = position name names

abbrev swapped : NamedRow
swapped = record {
  names = (98 ∷ []) ∷ (97 ∷ []) ∷ [];
  values = record { oid = 25; bytes = none } ∷ record { oid = 25; bytes = some (104 ∷ []) } ∷ [];
}

recv_struct-sent_example :
    recv_struct by_letter oids members ((97 ∷ []) ∷ (98 ∷ []) ∷ []) swapped (fresh_fields members)
    ≡ ok (some (104 ∷ []), (none, tt))
unfolding find send_impl type_oid wire write_raw
recv_struct-sent_example =
    recv_struct-sent by_letter oids members ((97 ∷ []) ∷ (98 ∷ []) ∷ []) swapped
      (some (104 ∷ []), (none, tt)) ((tt, omega arith, omega arith), (tt, tt)) refl
      (refl, (refl, tt))
