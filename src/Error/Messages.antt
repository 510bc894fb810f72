-- ===== src/Error/Messages.antt =====
-- error.h: `error::impl::category::message` and `errc::impl::category::message`.
use Prim.Native.String.{String}
use ozo_pg.Base.{
  ℕ, ◌≡◌, refl, sym, ap, ◌∙◌, List, [], ◌∷◌, ◌++◌, Option, none, some, Option-cases, inl, inr,
  if◌then◌else◌, ◌==◌, ==→eq, Bool, true, false, Bool-cases, All,
}
use ozo_pg.Error.{OzoError, Errc, ozo_value, errc_value}
use ozo_pg.Error.Sqlstate.Message.{codes, name_of}
use ozo_pg.Query.Decimal.{to_string, value_from, to_string_value}

-- The cases of the two switches.
abbrev pub ozo_messages : List (ℕ × String)
ozo_messages =
    (ozo_value OzoError.ok, "no error")
    ∷ (
      ozo_value OzoError.pq_connection_start_failed,
      "pq_connection_start_failed - PQConnectionStart function failed",
    )
    ∷ (
      ozo_value OzoError.pq_socket_failed,
      "pq_socket_failed - PQSocket returned -1 as fd - it seems like there is no connection",
    )
    ∷ (
      ozo_value OzoError.pq_connection_status_bad,
      "pq_connection_status_bad - PQstatus returned CONNECTION_BAD",
    )
    ∷ (
      ozo_value OzoError.pq_connect_poll_failed,
      "pq_connect_poll_failed - PQconnectPoll function failed",
    )
    ∷ (
      ozo_value OzoError.oid_type_mismatch,
      "no conversion possible from oid to user-supplied type",
    )
    ∷ (ozo_value OzoError.unexpected_eof, "unexpected EOF while data read")
    ∷ (
      ozo_value OzoError.pg_send_query_params_failed,
      "pg_send_query_params_failed - PQsendQueryParams function failed",
    )
    ∷ (
      ozo_value OzoError.pg_consume_input_failed,
      "pg_consume_input_failed - PQconsumeInput function failed",
    )
    ∷ (
      ozo_value OzoError.pg_set_nonblocking_failed,
      "pg_set_nonblocking_failed - PQsetnonblocking function failed",
    )
    ∷ (ozo_value OzoError.pg_flush_failed, "pg_flush_failed - PQflush function failed")
    ∷ (
      ozo_value OzoError.bad_result_process,
      "bad_result_process - error while processing or converting result from the database",
    )
    ∷ (
      ozo_value OzoError.no_sql_state_found,
      "no_sql_state_found - no sql state has been found in database query execution error reply",
    )
    ∷ (
      ozo_value OzoError.result_status_unexpected,
      "result_status_unexpected - got unexpected status from query result",
    )
    ∷ (
      ozo_value OzoError.result_status_empty_query,
      "result_status_empty_query - the string sent to the server was empty",
    )
    ∷ (
      ozo_value OzoError.result_status_bad_response,
      "result_status_bad_response - the server's response was not understood",
    )
    ∷ (ozo_value OzoError.oid_request_failed, "error during request oids from a database")
    ∷ (ozo_value OzoError.bad_object_size, "an object size received does not equal to the expected")
    ∷ (
      ozo_value OzoError.bad_array_size,
      "an array size received does not equal to the expected or not supported by the type",
    )
    ∷ (
      ozo_value OzoError.bad_array_dimension,
      "an array dimension count received does not equal to the expected or not supported by the type",
    )
    ∷ (
      ozo_value OzoError.bad_composite_size,
      "a composite's fields number received does not equal to the expected or not supported by the type",
    )
    ∷ (ozo_value OzoError.pq_cancel_failed, "libpq PQcancel function call failed")
    ∷ (ozo_value OzoError.pq_get_cancel_failed, "libpq PQgetCancel function call failed")
    ∷ []

abbrev pub errc_messages : List (ℕ × String)
errc_messages =
    (errc_value Errc.ok, "no error")
    ∷ (errc_value Errc.connection_error, "communication error")
    ∷ (errc_value Errc.database_readonly, "database in read-only state")
    ∷ (errc_value Errc.introspection_error, "serialization/deserialization related error")
    ∷ (errc_value Errc.type_mismatch, "expected type mismatch received type")
    ∷ (errc_value Errc.protocol_error, "protocol-related error")
    ∷ []

abbrev no_message : List ℕ
no_message = codes "no message for value: "

unfoldable pub message_or_value : Option String → ℕ → List ℕ
message_or_value (some text) value = codes text
message_or_value none value = no_message ++ to_string value

unfoldable pub ozo_message : ℕ → List ℕ
unfolding message_or_value name_of
ozo_message value = message_or_value (name_of ozo_messages value) value

unfoldable pub errc_message : ℕ → List ℕ
unfolding message_or_value name_of
errc_message value = message_or_value (name_of errc_messages value) value

-- What a reader of a message makes of it: the number at its end, or the value that has this message.
after : List ℕ → List ℕ → Option (List ℕ)
after [] t = some t
after (p ∷ ps) [] = none
after (p ∷ ps) (c ∷ cs) = let rest = after ps cs in if p == c then rest else none

same_text : List ℕ → List ℕ → Bool
same_text [] [] = true
same_text [] (c ∷ t) = false
same_text (c ∷ s) [] = false
same_text (c ∷ s) (d ∷ t) = let rest = same_text s t in if c == d then rest else false

value_of : List (ℕ × String) → List ℕ → ℕ
unfolding same_text
value_of [] t = 0
value_of ((n, text) ∷ rest) t = if same_text (codes text) t then n else value_of rest t

read_message : List (ℕ × String) → List ℕ → ℕ
unfolding after value_of
read_message table t = elim (after no_message t) [
  | some digits ↦ value_from 0 digits
  | none ↦ value_of table t
]

AreReadable : List (ℕ × String) → List (ℕ × String) → Type 0
AreReadable table rest = All (λ (p : ℕ × String). read_message table (codes p.1) ≡ p.0) rest

found-read :
    (table rest : List (ℕ × String)) (v : ℕ) (text : String)
    → AreReadable table rest
    → name_of rest v ≡ some text
    → read_message table (codes text) ≡ v
unfolding AreReadable name_of
found-read table [] v text h e = absurd cc
found-read table ((n, s) ∷ rest) v text (h, hs) e = elim (Bool-cases (v == n)) [
  | inl same ↦
      let k : some s ≡ some text = rw same at e in
      let s=text : s ≡ text = cc in
      ap (λ x. read_message table (codes x)) (sym s=text) ∙ h ∙ sym (==→eq v n same)
  | inr other ↦ found-read table rest v text hs (rw other at e)
]

message-read :
    (table : List (ℕ × String)) (v : ℕ)
    → AreReadable table table
    → read_message table (message_or_value (name_of table v) v) ≡ v
unfolding message_or_value read_message after
message-read table v h = elim (Option-cases (name_of table v)) [
  | inl e ↦ rw e (to_string_value v)
  | inr (text, e) ↦ rw e (found-read table table v text h e)
]

-- The message of an error code, and that of an error condition, tells its value: no two values have the same
-- message, those without a text of their own included.
ozo_message_value :
    (v : ℕ)
    → (read_message ozo_messages (ozo_message v) ≡ v)
      × (read_message errc_messages (errc_message v) ≡ v)
unfolding ozo_message errc_message read_message value_of same_text after AreReadable
ozo_message_value v = (
  message-read ozo_messages v (
    refl,
    (
      refl,
      (
        refl,
        (
          refl,
          (
            refl,
            (
              refl,
              (
                refl,
                (
                  refl,
                  (
                    refl,
                    (
                      refl,
                      (
                        refl,
                        (
                          refl,
                          (
                            refl,
                            (
                              refl,
                              (
                                refl,
                                (refl, (refl, (refl, (refl, (refl, (refl, (refl, (refl, tt)))))))),
                              ),
                            ),
                          ),
                        ),
                      ),
                    ),
                  ),
                ),
              ),
            ),
          ),
        ),
      ),
    ),
  ),
  message-read errc_messages v (refl, (refl, (refl, (refl, (refl, (refl, tt)))))),
)
