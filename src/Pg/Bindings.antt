-- ===== src/Pg/Bindings.antt =====
-- pg/types and ext/std/string.h: C++ types that are bound to built-in types of PostgreSQL, and their traits.
-- Time points and durations, which have a `recv_impl` of their own, are in TimePoint and Interval; the
-- identifiers of ext/boost/uuid.h and the null types are left out. Pairs and tuples are the composites of Io.Types.
pub mod Mismatch
use Prim.Native.String.{String}
use ozo_pg.Base.{ℕ, Option, none, some}
use ozo_pg.Io.Types.{PgType, TypeOid, built_in, integral, boolean, text, versioned}
use ozo_pg.Pg.{type_definition}
use ozo_pg.Pg.Definition.{TypeDefinition}

-- The fourteen types of pg/types and ext/std/string.h that the default implementations, or those of `jsonb`,
-- send and receive.
pub data CppType : Type 0 where
  int8 int4 int2 float8 float4 bool_t char_t string string_view bytea name json jsonb oid : CppType

-- `OZO_PG_BIND_TYPE(CppType, PgTypeName)`
unfoldable pub bound_name : CppType → String
bound_name int8 = "int8"
bound_name int4 = "int4"
bound_name int2 = "int2"
bound_name float8 = "float8"
bound_name float4 = "float4"
bound_name bool_t = "bool"
bound_name char_t = "char"
bound_name string = "text"
bound_name string_view = "text"
bound_name bytea = "bytea"
bound_name name = "name"
bound_name json = "json"
bound_name jsonb = "jsonb"
bound_name oid = "oid"

-- The `oid` of the traits, those of the definition; a type that is not defined does not compile.
abbrev pub oid_defined : Option TypeDefinition → ℕ
oid_defined none = 0
oid_defined (some d) = d.oid

unfoldable pub bound_oid : CppType → ℕ
unfolding bound_name
bound_oid c = oid_defined (type_definition (bound_name c))

-- The C++ type as the templates see it, a number with its `sizeof`.
abbrev pub pg_type : CppType → PgType
pg_type int8 = integral (built_in (bound_oid int8)) 8
pg_type int4 = integral (built_in (bound_oid int4)) 4
pg_type int2 = integral (built_in (bound_oid int2)) 2
pg_type float8 = integral (built_in (bound_oid float8)) 8
pg_type float4 = integral (built_in (bound_oid float4)) 4
pg_type bool_t = boolean (built_in (bound_oid bool_t))
pg_type char_t = integral (built_in (bound_oid char_t)) 1
pg_type string = text (built_in (bound_oid string))
pg_type string_view = text (built_in (bound_oid string_view))
pg_type bytea = text (built_in (bound_oid bytea))
pg_type name = text (built_in (bound_oid name))
pg_type json = text (built_in (bound_oid json))
pg_type jsonb = versioned (built_in (bound_oid jsonb))
pg_type oid = integral (built_in (bound_oid oid)) 4
