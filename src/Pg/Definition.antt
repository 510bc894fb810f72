-- ===== src/Pg/Definition.antt =====
-- pg/definitions.h: what the definition of a built-in type of PostgreSQL says.
use Prim.Native.String.{String}
use ozo_pg.Base.{ℕ, Option}

-- `size`: a `size_constant`; `null_size` is that of `null_state_size`.
pub data TypeSize : Type 0 where
  dynamic_size null_size : TypeSize
  bytes : ℕ → TypeSize

-- `type_definition<Name>`: not all types have an `array_oid`.
pub record TypeDefinition : Type 0 where
  pub name : String
  pub oid : ℕ
  pub array_oid : Option ℕ
  pub size : TypeSize

abbrev pub define : String → ℕ → Option ℕ → TypeSize → TypeDefinition
define name oid array_oid size = record {
  name = name;
  oid = oid;
  array_oid = array_oid;
  size = size;
}

-- `array_definition<Name>`, whose `size` is always `dynamic_size`.
pub record ArrayDefinition : Type 0 where
  pub name : String
  pub oid : ℕ
  pub value_type : String
