-- ===== src/Error/Sqlstate/Message.antt =====
-- error.h, `sqlstate::impl::category::message`. A text is the list of its codes.
use Prim.Native.String.{String}
use Prim.Native.Char.{code}
use ozo_pg.Base.{
  &&-split, ℕ, ◌≡◌, ◌≢◌, refl, List, [], ◌∷◌, ◌++◌, Option, none, some, Bool, true, false, ◌&&◌,
  ◌||◌, if◌then◌else◌, All, ap, ==-false_of_ne,
}
use ozo_pg.Base.{◌==◌ as num_eq}
use text.Mathlib.Text.{◌==◌}
use text.Mathlib.TextEquality.{eq_iff}
use ozo_pg.Error.Base36.{ltob36}
use ozo_pg.Error.Sqlstate.Code.{enumerators}
use ozo_pg.Error.Sqlstate.Name.{names}

abbrev pub codes : String → List ℕ
codes String.[] = []
codes (String.◌∷◌ c s) = code c ∷ codes s

-- The case of the switch that a value goes to.
unfoldable pub name_of : List (ℕ × String) → ℕ → Option String
name_of [] v = none
name_of ((n, name) ∷ rest) v = if num_eq v n then some name else name_of rest v

unfoldable pub message : ℕ → List ℕ
message v = elim (name_of names v) [
  | some name ↦ codes name ++ (b'(' ∷ (ltob36 v ++ (b')' ∷ [])))
  | none ↦ codes "sql state " ++ ltob36 v
]

abbrev pub snapshot_too_old : ℕ
snapshot_too_old = 11850624

-- The message names the enumerator, and writes its SQLSTATE behind it.
abbrev pub IsNamed : ℕ × String → Type 0
IsNamed (v, name) =
    v ≢ snapshot_too_old → message v ≡ codes name ++ (b'(' ∷ (ltob36 v ++ (b')' ∷ [])))

found : Option String → String → Bool
found none name = false
found (some name') name = name' == name

all_found : List (ℕ × String) → Bool
unfolding found name_of
all_found [] = true
all_found ((v, name) ∷ rest) =
    (num_eq v snapshot_too_old || found (name_of names v) name) && all_found rest

-- Evaluated over the whole enumeration.
all_found-enumerators : all_found enumerators ≡ true
unfolding all_found
all_found-enumerators = refl

found→named : (o : Option String) (name : String) → found o name ≡ true → o ≡ some name
unfolding found
found→named none name e = cc
found→named (some name') name e = ap some ((eq_iff name' name).0 e)

IsNamed-one :
    (v : ℕ) (name : String)
    → (num_eq v snapshot_too_old || found (name_of names v) name) ≡ true
    → IsNamed (v, name)
unfolding message
IsNamed-one v name e ne =
    let f : found (name_of names v) name ≡ true = rw (==-false_of_ne v snapshot_too_old ne) at e in
    rw (found→named (name_of names v) name f, message) refl

All-IsNamed : (es : List (ℕ × String)) → all_found es ≡ true → All IsNamed es
unfolding all_found
All-IsNamed [] e = tt
All-IsNamed ((v, name) ∷ es) e =
    let (here, there) = &&-split _ _ e in (IsNamed-one v name here, All-IsNamed es there)

-- The message of every enumerator but one is its name with its SQLSTATE; that of `snapshot_too_old`,
-- which the switch leaves out, is the one for an unknown code.
message-enumerators : All IsNamed enumerators × (message snapshot_too_old ≡ codes "sql state 72000")
unfolding message name_of ltob36
message-enumerators = (All-IsNamed enumerators all_found-enumerators, refl)
