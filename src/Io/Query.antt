-- ===== src/Io/Query.antt =====
-- io/binary_query.h: the arrays that a query's parameters become. A tuple of parameters has the shape
-- of a composite's fields, and a pointer into the buffer is an offset.
pub mod Values
use ozo_pg.Base.{ℕ, ◌+◌, List, [], ◌∷◌, Option, none, some, ◌==◌, if◌then◌else◌, map}
use ozo_pg.Io.SizeOf.{size_of, size_of_impl, is_negative}
use ozo_pg.Io.Send.{Ostream, send, send_impl}
use ozo_pg.Io.Types.{OidMap, Fields, end, field, Els, type_oid}

pub record BinaryQuery : Type 0 where
  pub text : List ℕ
  pub buffer : List ℕ
  pub types : List ℕ
  pub formats : List ℕ
  pub lengths : List ℕ
  pub values : List (Option ℕ)

-- `std::max(0, size_of(params[i]))`
unfoldable pub lengths_of : (fs : Fields) → Els fs → List ℕ
lengths_of end v = []
lengths_of (field p t fs) v =
    let size = size_of p (size_of_impl t) v.0 in
    (if is_negative size then 0 else size) ∷ lengths_of fs v.1

unfoldable pub types_of : OidMap → Fields → List ℕ
types_of oids end = []
types_of oids (field p t fs) = type_oid oids t ∷ types_of oids fs

abbrev pub binary_format : ℕ
binary_format = 1

unfoldable pub formats_of : Fields → List ℕ
formats_of end = []
formats_of (field p t fs) = binary_format ∷ formats_of fs

unfoldable pub send_params : OidMap → (fs : Fields) → Ostream → Els fs → Ostream
send_params oids end out v = out
send_params oids (field p t fs) out v = send_params oids fs (send p (send_impl oids t) out v.0) v.1

-- The pointers: null for a parameter of length 0, and the offset of its bytes for another.
unfoldable pub values_from : ℕ → List ℕ → List (Option ℕ)
values_from offset [] = []
values_from offset (l ∷ ls) = (if l == 0 then none else some offset) ∷ values_from (offset + l) ls

unfoldable pub make_binary_query : OidMap → List ℕ → (fs : Fields) → Els fs → BinaryQuery
make_binary_query oids text fs v = record {
  text = text;
  buffer = send_params oids fs [] v;
  types = types_of oids fs;
  formats = formats_of fs;
  lengths = lengths_of fs v;
  values = values_from 0 (lengths_of fs v);
}
