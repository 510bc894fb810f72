-- ===== src/Transaction/Statement.antt =====
-- detail/begin_statement_builder.h: a reader of the statement, as PostgreSQL's grammar has it, and what it
-- makes of the statement that is built.
use ozo_pg.Base.{
  ◌≡◌, refl, ap, ◌∙◌, List, [], ◌∷◌, ◌++◌, Option, none, some, Bool, true, false, ◌==◌,
  if◌then◌else◌,
}
use ozo_pg.Error.{ErrorCode}
use ozo_pg.Query.{Text, literal}
use ozo_pg.Transaction.{
  IsolationLevel, serializable, repeatable_read, read_committed, read_uncommitted, TransactionMode,
  read_write, read_only, TransactionOptions, isolation_level_to_string, sql_level, mode_to_string,
  deferrability_to_string, strings_of, join, build, begin, get_transaction_isolation_level,
  get_transaction_mode, get_transaction_deferrability,
}

-- What is left of a text behind a text that it starts with.
abbrev pub after : Text → Text → Option Text
after [] t = some t
after (p ∷ ps) [] = none
after (p ∷ ps) (c ∷ cs) = let rest = after ps cs in if p == c then rest else none

-- The first of the phrases that the text starts with.
abbrev pub phrase : {A : Type 0} → List (Text × A) → Text → Option A × Text
phrase [] t = (none, t)
phrase ((p, a) ∷ ps) t = elim (after p t) [ some rest ↦ (some a, rest) | none ↦ phrase ps t ]

abbrev levels : List (Text × IsolationLevel)
levels =
    (literal " ISOLATION LEVEL SERIALIZABLE", serializable)
    ∷ (literal " ISOLATION LEVEL REPEATABLE READ", repeatable_read)
    ∷ (literal " ISOLATION LEVEL READ COMMITTED", read_committed)
    ∷ (literal " ISOLATION LEVEL READ UNCOMMITTED", read_uncommitted)
    ∷ []

abbrev modes : List (Text × TransactionMode)
modes = (literal " READ WRITE", read_write) ∷ (literal " READ ONLY", read_only) ∷ []

abbrev deferrabilities : List (Text × Bool)
deferrabilities = (literal " DEFERRABLE", true) ∷ (literal " NOT DEFERRABLE", false) ∷ []

-- Nothing may follow.
abbrev pub at_end : {A : Type 0} → A × Text → Option A
at_end (a, []) = some a
at_end (a, c ∷ cs) = none

abbrev pub Modes : Type 0
Modes = Option IsolationLevel × Option TransactionMode × Option Bool

abbrev read_behind : Option IsolationLevel × Text → Option Modes
read_behind (level, t) =
    let (mode, t₁) = phrase modes t in
    let (deferrability, t₂) = phrase deferrabilities t₁ in at_end ((level, mode, deferrability), t₂)

abbrev pub read_modes : Text → Option Modes
read_modes t = read_behind (phrase levels t)

abbrev pub read_begin : Text → Option Modes
read_begin t = elim (after (literal "BEGIN") t) [ some rest ↦ read_modes rest | none ↦ none ]

abbrev real : {A : Type 0} → Option (Option A) → Option A
real none = none
real (some v) = v

abbrev tail : Option TransactionMode → Option Bool → List Text
tail m d = strings_of mode_to_string (some m) ++ strings_of deferrability_to_string (some d)

level-some :
    (l : IsolationLevel) (t : Text) → phrase levels (isolation_level_to_string l ++ t) ≡ (some l, t)
unfolding isolation_level_to_string sql_level
level-some serializable t = refl
level-some repeatable_read t = refl
level-some read_committed t = refl
level-some read_uncommitted t = refl

level-none :
    (m : Option TransactionMode) (d : Option Bool)
    → phrase levels (join (tail m d)) ≡ (none, join (tail m d))
unfolding strings_of mode_to_string deferrability_to_string
level-none none none = refl
level-none none (some true) = refl
level-none none (some false) = refl
level-none (some read_write) none = refl
level-none (some read_write) (some true) = refl
level-none (some read_write) (some false) = refl
level-none (some read_only) none = refl
level-none (some read_only) (some true) = refl
level-none (some read_only) (some false) = refl

behind :
    (l : Option IsolationLevel) (m : Option TransactionMode) (d : Option Bool)
    → read_behind (l, join (tail m d)) ≡ some (l, m, d)
unfolding strings_of mode_to_string deferrability_to_string
behind l none none = refl
behind l none (some true) = refl
behind l none (some false) = refl
behind l (some read_write) none = refl
behind l (some read_write) (some true) = refl
behind l (some read_write) (some false) = refl
behind l (some read_only) none = refl
behind l (some read_only) (some true) = refl
behind l (some read_only) (some false) = refl

read_strings :
    (l : Option IsolationLevel) (m : Option TransactionMode) (d : Option Bool)
    → read_modes (join (strings_of isolation_level_to_string (some l) ++ tail m d)) ≡ some (l, m, d)
unfolding strings_of
read_strings none m d = ap read_behind (level-none m d) ∙ behind none m d
read_strings (some l) m d = ap read_behind (level-some l (join (tail m d))) ∙ behind (some l) m d

-- An option that is left out counts as one that is `none`.
strings_of-real :
    {A : Type 0} (f : A → Text) (o : Option (Option A))
    → strings_of f o ≡ strings_of f (some (real o))
unfolding strings_of
strings_of-real f none = refl
strings_of-real f (some v) = refl

read_build :
    (o : TransactionOptions)
    → read_begin (build o) ≡ some (real o.isolation_level, real o.mode, real o.deferrability)
unfolding build
read_build o =
    ap
      (λ ss. read_modes (
        join (
          ss
          ++ (strings_of mode_to_string o.mode
              ++ strings_of deferrability_to_string o.deferrability))))
      (strings_of-real isolation_level_to_string o.isolation_level)
    ∙ ap
        (λ ss. read_modes (
          join (
            strings_of isolation_level_to_string (some (real o.isolation_level))
            ++ (ss ++ strings_of deferrability_to_string o.deferrability))))
        (strings_of-real mode_to_string o.mode)
    ∙ ap
        (λ ss. read_modes (
          join (
            strings_of isolation_level_to_string (some (real o.isolation_level))
            ++ (strings_of mode_to_string (some (real o.mode)) ++ ss))))
        (strings_of-real deferrability_to_string o.deferrability)
    ∙ read_strings (real o.isolation_level) (real o.mode) (real o.deferrability)

-- The statement that begins a transaction says, to a reader of it, exactly the level of isolation, the mode
-- and the deferrability that the transaction object then reports, each of them only if it was chosen.
pub begin-statement :
    (C : Type 0) (execute : Text → C → Option ErrorCode × C) (options : TransactionOptions)
    (provider : C)
    → let t = (begin execute options provider).1 in
      read_begin (build options)
      ≡ some (
        get_transaction_isolation_level t,
        get_transaction_mode t,
        get_transaction_deferrability t,
      )
unfolding begin get_transaction_isolation_level get_transaction_mode get_transaction_deferrability
begin-statement C execute options provider = read_build options
