-- ===== src/Connect/Examples.antt =====
-- A connection that is made, and the oids that it then asks for.
use ozo_pg.Base.{◌≡◌, ◌↔◌, refl, List, [], ◌∷◌, none, some, inl, inr, arith}
use ozo_pg.Query.Decimal.{to_string}
use ozo_pg.Error.{OzoError, ozo_error}
use ozo_pg.Connection.{Libpq, ConnStatus, PgTransactionStatus, new_connection}
use ozo_pg.Connect.{
  WaitEnd, pgres_polling_reading, pgres_polling_writing, pgres_polling_ok, pgres_polling_failed,
  connect,
}
use ozo_pg.Connect.Polling.{listed, or_else, start_answer, first_answer, connect-calls}
use ozo_pg.Connect.OidMap.{OidMapT, on_oids, connected_with_oids, make_oids_query}
use ozo_pg.Connect.OidMap.Assigned.{AreDistinct, IsConnected, connected_with_oids-IsConnected_iff}
use ozo_pg.Query.{literal}
use ozo_pg.Query.Builder.{text, built}

abbrev pub well : Libpq
well = record {
  status = λ h. ConnStatus.connection_other;
  transaction_status = λ o. PgTransactionStatus.pqtrans_idle;
  socket = λ h. some h;
  error_message = λ o. [];
}

abbrev waits : List WaitEnd
waits =
    (none, pgres_polling_reading)
    ∷ (none, pgres_polling_writing)
    ∷ (none, pgres_polling_ok)
    ∷ (none, pgres_polling_failed)
    ∷ []

connected : (connect well (some 5) new_connection waits).calls ≡ none ∷ []
unfolding connect
connected = refl

connect-calls_example :
    (connect well (some 5) new_connection waits).calls
    ≡ listed (or_else (start_answer well (some 5)) (first_answer waits))
connect-calls_example = connect-calls well (some 5) new_connection waits

abbrev pub types : OidMapT
types = record { keys = 7 ∷ 8 ∷ []; impl = λ k. 0 }

abbrev pub types_AreDistinct : AreDistinct types.keys
types_AreDistinct = (λ i. elim i [ inl e ↦ omega (arith, e) | inr j ↦ absurd j ], (λ i. i, tt))

connected_with_oids-IsConnected_iff_example :
    ((connected_with_oids none (none, 16400 ∷ 16500 ∷ []) types).2 ≡ none)
    ↔ IsConnected types.keys none
        (none, 16400 ∷ 16500 ∷ [])
        (connected_with_oids none (none, 16400 ∷ 16500 ∷ []) types).0.impl
connected_with_oids-IsConnected_iff_example =
    connected_with_oids-IsConnected_iff none (none, 16400 ∷ 16500 ∷ []) types types_AreDistinct

null_oid : (on_oids none types (16400 ∷ 0 ∷ [])).2 ≡ some (ozo_error OzoError.oid_request_failed)
unfolding on_oids
null_oid = refl

oids_query :
    text (make_oids_query [])
    ≡ built (literal "SELECT COALESCE(to_regtype(f)::oid, 0) AS oid FROM UNNEST($1) AS f")
unfolding text make_oids_query to_string
oids_query = refl
