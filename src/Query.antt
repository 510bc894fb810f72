-- ===== src/Query.antt =====
-- query_conf.h and query_builder.h: queries written by hand and queries read from a configuration. A text
-- is the list of the codes of its characters.
pub mod Decimal
pub mod Builder
pub mod Names
pub mod Conf
pub mod Repository
mod Examples
use Prim.Native.String.{String}
use Prim.Native.Char.{code}
use ozo_pg.Base.{ℕ, ◌≡◌, refl, ap, List, [], ◌∷◌, Bool, true, false, ◌&&◌, ◌==◌, ==_refl, ==→eq}

abbrev pub Text : Type 0
Text = List ℕ

abbrev pub literal : String → Text
literal String.[] = []
literal (String.◌∷◌ c s) = code c ∷ literal s

abbrev pub text_eq : Text → Text → Bool
text_eq [] [] = true
text_eq [] (b ∷ t) = false
text_eq (a ∷ s) [] = false
text_eq (a ∷ s) (b ∷ t) = (a == b) && text_eq s t
