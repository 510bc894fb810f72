-- ===== src/Transaction.antt =====
-- transaction.h, transaction_options.h, detail/begin_statement_builder.h and impl/transaction.h: the
-- statements that begin and end a transaction, and the connection that it holds.
pub mod Statement
mod Examples
use ozo_pg.Base.{List, [], ◌∷◌, ◌++◌, Option, none, some, Bool, true, false}
use ozo_pg.Error.{ErrorCode}
use ozo_pg.Query.{Text, literal}

pub data IsolationLevel : Type 0 where
  serializable repeatable_read read_committed read_uncommitted : IsolationLevel

pub data TransactionMode : Type 0 where
  read_write read_only : TransactionMode

-- `transaction_options`: an option may be left out, or be set to `none`. A mode of deferring is its value.
pub record TransactionOptions : Type 0 where
  pub isolation_level : Option (Option IsolationLevel)
  pub mode : Option (Option TransactionMode)
  pub deferrability : Option (Option Bool)

-- `operator !` of `deferrable_mode`
unfoldable pub not_deferrable : Bool → Bool
not_deferrable true = false
not_deferrable false = true

unfoldable pub sql_level : IsolationLevel → Text
sql_level serializable = literal "SERIALIZABLE"
sql_level repeatable_read = literal "REPEATABLE READ"
sql_level read_committed = literal "READ COMMITTED"
sql_level read_uncommitted = literal "READ UNCOMMITTED"

-- The overloads of `to_string`.
unfoldable pub isolation_level_to_string : IsolationLevel → Text
unfolding sql_level
isolation_level_to_string level = literal " ISOLATION LEVEL " ++ sql_level level

unfoldable pub mode_to_string : TransactionMode → Text
mode_to_string read_write = literal " READ WRITE"
mode_to_string read_only = literal " READ ONLY"

unfoldable pub deferrability_to_string : Bool → Text
deferrability_to_string true = literal " DEFERRABLE"
deferrability_to_string false = literal " NOT DEFERRABLE"

-- An option that is there and is not `none` is one of `real_options`.
unfoldable pub strings_of : {A : Type 0} → (A → Text) → Option (Option A) → List Text
strings_of f none = []
strings_of f (some none) = []
strings_of f (some (some a)) = f a ∷ []

abbrev pub join : List Text → Text
join [] = []
join (s ∷ ss) = s ++ join ss

unfoldable pub build : TransactionOptions → Text
unfolding strings_of isolation_level_to_string mode_to_string deferrability_to_string
build options =
    literal "BEGIN"
    ++ join (
        strings_of isolation_level_to_string options.isolation_level
        ++ (strings_of mode_to_string options.mode
            ++ strings_of deferrability_to_string options.deferrability))

-- `transaction`
pub record Transaction (C : Type 0) : Type 0 where
  pub impl : C
  pub options : TransactionOptions

unfoldable pub release_connection : {C : Type 0} → Transaction C → C
release_connection t = t.impl

-- `get_option(options, tag, none)`
abbrev option_or_none : {A : Type 0} → Option (Option A) → Option A
option_or_none none = none
option_or_none (some v) = v

unfoldable pub get_transaction_isolation_level :
    {C : Type 0} → Transaction C → Option IsolationLevel
get_transaction_isolation_level t = let o = t.options in option_or_none o.isolation_level

unfoldable pub get_transaction_mode : {C : Type 0} → Transaction C → Option TransactionMode
get_transaction_mode t = let o = t.options in option_or_none o.mode

unfoldable pub get_transaction_deferrability : {C : Type 0} → Transaction C → Option Bool
get_transaction_deferrability t = let o = t.options in option_or_none o.deferrability

-- `async_execute` of a statement on a connection is a parameter: it gives an error, if any, and the
-- connection.
module _ {C : Type 0} (execute : Text → C → Option ErrorCode × C) where
  -- What the handler of `begin` is called with.
  unfoldable pub begin : TransactionOptions → C → Option ErrorCode × Transaction C
  unfolding build
  begin options provider =
      let (ec, connection) = execute (build options) provider in
      (ec, record { impl = connection; options = options })

  unfoldable pub end_transaction : Text → Transaction C → Option ErrorCode × C
  unfolding release_connection
  end_transaction query t =
      let (ec, connection) = execute query t.impl in
      (ec, release_connection (record { impl = connection; options = t.options }))

  unfoldable pub commit : Transaction C → Option ErrorCode × C
  unfolding end_transaction
  commit t = end_transaction (literal "COMMIT") t

  unfoldable pub rollback : Transaction C → Option ErrorCode × C
  unfolding end_transaction
  rollback t = end_transaction (literal "ROLLBACK") t
