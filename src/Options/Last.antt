-- ===== src/Options/Last.antt =====
-- core/options.h: what an option is after some options have been set.
use ozo_pg.Base.{
  ℕ, ◌≡◌, refl, sym, ap, ◌∙◌, List, [], ◌∷◌, Option, none, some, true, false, ◌==◌, ==→eq, ==_refl,
  true≢false, Bool-cases, inl, inr, if◌then◌else◌,
}
use ozo_pg.Options.{OptionPair, has, get_option, assign, set, set_all}

module _ {V : Type 0} where
  get-assign_same :
      (op : ℕ) (v : V) (map : List (OptionPair V))
      → has op map ≡ true
      → get_option op (assign (op, v) map) ≡ some v
  unfolding has assign get_option
  get-assign_same op v [] h = absurd (true≢false (sym h))
  get-assign_same op v ((key, value) ∷ map) h = elim (Bool-cases (key == op)) [
    | inl e ↦ rw e (rw e refl)
    | inr n ↦ rw n (rw n (get-assign_same op v map (rw n at h)))
  ]

  get-assign_other :
      (op other : ℕ) (v : V) (map : List (OptionPair V))
      → (op == other) ≡ false
      → get_option other (assign (op, v) map) ≡ get_option other map
  unfolding assign get_option
  get-assign_other op other v [] h = refl
  get-assign_other op other v ((key, value) ∷ map) h = elim (Bool-cases (key == op)) [
    | inl e ↦
        let k : key ≡ op = ==→eq key op e in
        let no : (key == other) ≡ false = ap (λ x. x == other) k ∙ h in rw e (rw no refl)
    | inr n ↦
        rw n (ap (λ r. if key == other then some value else r) (get-assign_other op other v map h))
  ]

  get-set_same :
      (op : ℕ) (v : V) (map : List (OptionPair V)) → get_option op (set (op, v) map) ≡ some v
  unfolding set get_option
  get-set_same op v map = elim (Bool-cases (has op map)) [
    | inl there ↦ rw there (get-assign_same op v map there)
    | inr new ↦ rw new (rw (==_refl op) refl)
  ]

  get-set_other :
      (op other : ℕ) (v : V) (map : List (OptionPair V))
      → (op == other) ≡ false
      → get_option other (set (op, v) map) ≡ get_option other map
  unfolding set get_option
  get-set_other op other v map h = elim (Bool-cases (has op map)) [
    | inl there ↦ rw there (get-assign_other op other v map h)
    | inr new ↦ rw new (rw h refl)
  ]

  -- The last value of an option among some options.
  abbrev pub or_else : Option V → Option V → Option V
  or_else none b = b
  or_else (some a) b = some a

  abbrev pub last_of : ℕ → List (OptionPair V) → Option V
  last_of op [] = none
  last_of op ((key, value) ∷ vs) = or_else (last_of op vs) (if key == op then some value else none)

  or_else_assoc : (a b c : Option V) → or_else (or_else a b) c ≡ or_else a (or_else b c)
  or_else_assoc none b c = refl
  or_else_assoc (some a) b c = refl

  get-set :
      (op key : ℕ) (value : V) (map : List (OptionPair V))
      → get_option op (set (key, value) map)
        ≡ or_else (if key == op then some value else none) (get_option op map)
  get-set op key value map = elim (Bool-cases (key == op)) [
    | inl e ↦
        let k : key ≡ op = ==→eq key op e in
        rw e (ap (λ x. get_option op (set (x, value) map)) k ∙ get-set_same op value map)
    | inr n ↦ rw n (get-set_other key op value map n)
  ]

  -- After some options have been set, in their order, on a map of options, an option has the last value that
  -- was set for it, or else the one that it had in the map, if it had one.
  get_option-set_all :
      (op : ℕ) (vs map : List (OptionPair V))
      → get_option op (set_all vs map) ≡ or_else (last_of op vs) (get_option op map)
  unfolding set_all
  get_option-set_all op [] map = refl
  get_option-set_all op ((key, value) ∷ vs) map =
      get_option-set_all op vs (set (key, value) map)
      ∙ ap (or_else (last_of op vs)) (get-set op key value map)
      ∙ sym (
          or_else_assoc (last_of op vs) (if key == op then some value else none)
            (get_option op map))
