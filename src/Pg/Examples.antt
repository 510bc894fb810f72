-- ===== src/Pg/Examples.antt =====
-- A number that is received as another type, or with too few bytes.
use text.Mathlib.TextEquality.{eq_iff}
use ozo_pg.Io.Send.Frames.{write_integral-big_endian}
use ozo_pg.Base.{true≢false, sym, ℕ, ◌≡◌, refl, [], ◌≢◌, ◌^◌, ◌<◌, length, none, some, arith}
use ozo_pg.Io.Types.{OidMap, nullable, type_oid}
use ozo_pg.Io.Stream.{err, oid_type_mismatch}
use ozo_pg.Io.Endian.{length-big_endian}
use ozo_pg.Io.Send.{send_impl}
use ozo_pg.Io.Row.{recv_value}
use ozo_pg.Pg.{type_definition, array_definition, definitions}
use ozo_pg.Pg.Definition.{define, bytes}
use ozo_pg.Pg.Owners.{of_type, of_array, oid_named, oid_named-distinct}
use ozo_pg.Pg.Bindings.{CppType, bound_name, pg_type}
use ozo_pg.Pg.Bindings.Mismatch.{bytes_defined, recv_value-bound}

abbrev oids : OidMap
oids key = 0

defined : type_definition "uuid" ≡ some (define "uuid" 2950 (some 2951) (bytes 16))
unfolding type_definition definitions
defined = refl

array_defined :
    array_definition "uuid" ≡ some (record { name = "uuid[]"; oid = 2951; value_type = "uuid" })
unfolding array_definition definitions
array_defined = refl

not_defined : type_definition "ltree" ≡ none
unfolding type_definition definitions
not_defined = refl

number : oid_named (of_type "int4") ≡ some 23
unfolding type_definition definitions
number = refl

numbers : oid_named (of_array "int4") ≡ some 1007
unfolding array_definition definitions
numbers = refl

number≢numbers : of_type "int4" ≢ of_array "int4"
number≢numbers h = cc

oid_named-distinct_example : ◌≢◌ {A = ℕ} 23 1007
oid_named-distinct_example =
    oid_named-distinct (of_type "int4") (of_array "int4") 23 1007 number numbers number≢numbers

names_differ : bound_name CppType.float4 ≢ bound_name CppType.int4
unfolding bound_name
names_differ h = true≢false (sym ((eq_iff "float4" "int4").1 h))

fits : length (send_impl oids (pg_type CppType.int4) [] 77) < 2 ^ 31
unfolding send_impl
fits = rw (write_integral-big_endian 4 [] 77) (omega (arith, length-big_endian 4 77))

eight_bytes : bytes_defined (type_definition (bound_name CppType.int8)) ≡ some 8
unfolding bound_name type_definition definitions
eight_bytes = refl

recv_value-bound_example :
    recv_value oids nullable
      (pg_type CppType.float4)
      (record {
        oid = type_oid oids (pg_type CppType.int4);
        bytes = some (send_impl oids (pg_type CppType.int4) [] 77);
      })
      none
    ≡ err oid_type_mismatch
recv_value-bound_example =
    recv_value-bound oids CppType.int4 CppType.float4 nullable 77 none names_differ fits
