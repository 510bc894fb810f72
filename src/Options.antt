-- ===== src/Options.antt =====
-- core/options.h: maps of options, and the factory that sets them. An option is the number of its tag, and the
-- values of all options have one type.
mod Last
mod Examples
use ozo_pg.Base.{
  ℕ, List, [], ◌∷◌, ◌++◌, Option, none, some, Bool, true, false, ◌||◌, ◌==◌, if◌then◌else◌,
}

-- `option::operator =`: the pair of an option and a value.
abbrev pub OptionPair : Type 0 → Type 0
OptionPair V = ℕ × V

module _ {V : Type 0} where
  unfoldable pub has : ℕ → List (OptionPair V) → Bool
  has op [] = false
  has op ((key, value) ∷ map) = (key == op) || has op map

  -- `get_option`: without a default it does not compile for an option that is not there.
  unfoldable pub get_option : ℕ → List (OptionPair V) → Option V
  get_option op [] = none
  get_option op ((key, value) ∷ map) = if key == op then some value else get_option op map

  unfoldable pub get_option_or : ℕ → List (OptionPair V) → V → V
  unfolding get_option
  get_option_or op map default = elim (get_option op map) [ some v ↦ v | none ↦ default ]

  -- `v_[hana::first(v)] = ...`
  unfoldable pub assign : OptionPair V → List (OptionPair V) → List (OptionPair V)
  assign v [] = []
  assign (op, v) ((key, value) ∷ map) =
      let rest = assign (op, v) map in if key == op then (key, v) ∷ map else (key, value) ∷ rest

  -- `options_factory_base::set` of one option: it is assigned, or inserted.
  unfoldable pub set : OptionPair V → List (OptionPair V) → List (OptionPair V)
  unfolding has assign
  set (op, v) map = if has op map then assign (op, v) map else (op, v) ∷ map

  -- And of several, as a fold.
  unfoldable pub set_all : List (OptionPair V) → List (OptionPair V) → List (OptionPair V)
  unfolding set
  set_all [] map = map
  set_all (v ∷ vs) map = set_all vs (set v map)
