-- ===== src/Pg.antt =====
-- pg/definitions.h: the definition of a built-in type, and of its array, by the name of the type.
pub mod Definition
pub mod Table
pub mod Owners
pub mod Bindings
mod Examples
use Prim.Native.String.{String, ◌++◌ as str_append}
use text.Mathlib.Text.{◌==◌ as str_eq}
use ozo_pg.Base.{List, [], ◌∷◌, ◌++◌, Option, none, some, if◌then◌else◌}
use ozo_pg.Pg.Definition.{TypeDefinition, ArrayDefinition}
use ozo_pg.Pg.Table

unfoldable pub definitions : List TypeDefinition
definitions =
    Table.first_definitions
    ++ (Table.second_definitions
        ++ (Table.third_definitions ++ (Table.fourth_definitions ++ Table.fifth_definitions)))

abbrev pub find_definition : String → List TypeDefinition → Option TypeDefinition
find_definition name [] = none
find_definition name (d ∷ ds) = if str_eq d.name name then some d else find_definition name ds

-- A name that has no definition does not compile.
unfoldable pub type_definition : String → Option TypeDefinition
type_definition name = find_definition name definitions

-- The array of a type has its name and `[]`, and is defined if the type has an `array_oid`.
abbrev pub array_of : TypeDefinition → Option ArrayDefinition
array_of d = elim d.array_oid [
  | none ↦ none
  | some oid ↦ some (record { name = str_append d.name "[]"; oid = oid; value_type = d.name })
]

abbrev pub record_array : ArrayDefinition
record_array = record { name = "_record"; oid = 2287; value_type = "record" }

abbrev pub array_of_defined : Option TypeDefinition → Option ArrayDefinition
array_of_defined none = none
array_of_defined (some d) = array_of d

-- The array of `record` has a specialization of its own.
unfoldable pub array_definition : String → Option ArrayDefinition
unfolding type_definition
array_definition name =
    if str_eq name "record" then some record_array else array_of_defined (type_definition name)
