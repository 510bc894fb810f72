-- ===== src/Transaction/Examples.antt =====
-- A transaction on a connection that keeps the statements that it is sent.
use ozo_pg.Base.{◌≡◌, refl, List, [], ◌∷◌, ◌++◌, Option, none, some, false}
use ozo_pg.Error.{ErrorCode}
use ozo_pg.Query.{Text, literal}
use ozo_pg.Transaction.{
  serializable, TransactionOptions, build, begin, commit, get_transaction_isolation_level,
  get_transaction_mode, get_transaction_deferrability,
}
use ozo_pg.Transaction.Statement.{read_begin, begin-statement}

abbrev keep : Text → List Text → Option ErrorCode × List Text
keep statement sent = (none, sent ++ (statement ∷ []))

abbrev chosen : TransactionOptions
chosen = record {
  isolation_level = some (some serializable);
  mode = some none;
  deferrability = some (some false);
}

begin-statement_example :
    let t = (begin keep chosen []).1 in
    read_begin (build chosen)
    ≡ some
        (get_transaction_isolation_level t, get_transaction_mode t, get_transaction_deferrability t)
begin-statement_example = begin-statement (List Text) keep chosen []

sent :
    (commit keep (begin keep chosen []).1).1
    ≡ literal "BEGIN ISOLATION LEVEL SERIALIZABLE NOT DEFERRABLE" ∷ literal "COMMIT" ∷ []
unfolding commit begin
sent = refl
