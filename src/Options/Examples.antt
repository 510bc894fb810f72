-- ===== src/Options/Examples.antt =====
-- A map of two options, of which one is set again, twice, and a third is new.
use ozo_pg.Base.{ℕ, ◌≡◌, refl, List, [], ◌∷◌}
use ozo_pg.Options.{OptionPair, get_option_or, set, set_all}

abbrev defaults : List (OptionPair ℕ)
defaults = (1, 500) ∷ (2, 3) ∷ []

abbrev changes : List (OptionPair ℕ)
changes = (2, 4) ∷ (7, 1) ∷ (2, 5) ∷ []

changed : set_all changes defaults ≡ (7, 1) ∷ (1, 500) ∷ (2, 5) ∷ []
unfolding set_all set
changed = refl

default_value : get_option_or 9 defaults 60 ≡ 60
unfolding get_option_or
default_value = refl
