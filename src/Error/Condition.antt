-- ===== src/Error/Condition.antt =====
-- Which codes the error conditions of `errc` take in.
use ozo_pg.Base.{
  ℕ, ◌/◌, ◌≡◌, ◌≢◌, refl, ◌∙◌, List, [], ◌∷◌, Option, none, some, Bool, true, false, ◌||◌, ◌==◌,
  arith,
}
use ozo_pg.Error.{
  OzoError, ozo_error, Category, sql_state, ozo, errc, boost, same_category, ErrorCode, same_code,
  Errc, errc_value, AsioError, Boost, connection_exception, oid_type_mismatch,
  read_only_sql_transaction, sqlstate_equivalent, is_sqlstate, any_asio, any_ozo, is_asio, is_ozo,
  connection_asio_errors, connection_ozo_errors, introspection_errors, protocol_errors, match_code,
  is_errc,
}
use ozo_pg.Error.Sqlstate.Class.{
  class_width, class_equivalent, contains, class_conditions, value_in,
}

-- What Boost documents: `error_category::equivalent(const error_code&, int)` compares category and value;
-- `default_error_condition` keeps both for a code of a category that does not override it, as none of the
-- library's does (those of Boost may map a code to another category); the named codes of Asio lie in
-- categories of Boost; and `io_error` takes in no code of the library's categories.
pub record IsDocumented (b : Boost) : Type 0 where
  pub base : (a c : ErrorCode) → b.base_equivalent a c ≡ same_code a c
  pub default :
      (a c : ErrorCode)
      → ((n : ℕ) → a.category ≢ boost n)
      → b.default_equivalent a c ≡ same_code a c
  pub asio_boost : (e : AsioError) → (n : ℕ) × ((b.asio e).category ≡ boost n)
  pub io_sqlstate : (v : ℕ) → b.io_error (record { category = sql_state; value = v }) ≡ false
  pub io_ozo : (e : OzoError) → b.io_error (ozo_error e) ≡ false

abbrev pub sqlstate_code : ℕ → ErrorCode
sqlstate_code v = record { category = sql_state; value = v }

-- The condition that an error code of the library belongs to.
abbrev pub classify : OzoError → Option Errc
classify OzoError.ok = none
classify OzoError.pq_connection_start_failed = some Errc.connection_error
classify OzoError.pq_socket_failed = some Errc.connection_error
classify OzoError.pq_connection_status_bad = some Errc.connection_error
classify OzoError.pq_connect_poll_failed = some Errc.connection_error
classify OzoError.oid_type_mismatch = some Errc.type_mismatch
classify OzoError.unexpected_eof = some Errc.introspection_error
classify OzoError.pg_send_query_params_failed = some Errc.connection_error
classify OzoError.pg_consume_input_failed = some Errc.connection_error
classify OzoError.pg_set_nonblocking_failed = some Errc.connection_error
classify OzoError.pg_flush_failed = some Errc.connection_error
classify OzoError.bad_result_process = some Errc.introspection_error
classify OzoError.no_sql_state_found = some Errc.protocol_error
classify OzoError.result_status_unexpected = some Errc.protocol_error
classify OzoError.result_status_empty_query = some Errc.protocol_error
classify OzoError.result_status_bad_response = some Errc.protocol_error
classify OzoError.oid_request_failed = some Errc.protocol_error
classify OzoError.bad_object_size = some Errc.introspection_error
classify OzoError.bad_array_size = some Errc.introspection_error
classify OzoError.bad_array_dimension = some Errc.introspection_error
classify OzoError.bad_composite_size = some Errc.introspection_error
classify OzoError.pq_cancel_failed = none
classify OzoError.pq_get_cancel_failed = none

abbrev pub is_class : Option Errc → Errc → Bool
is_class none c = false
is_class (some d) c = errc_value d == errc_value c

same_category-boost :
    (c : Category) (n : ℕ) → ((m : ℕ) → c ≢ boost m) → same_category c (boost n) ≡ false
same_category-boost ozo n other = refl
same_category-boost sql_state n other = refl
same_category-boost errc n other = refl
same_category-boost (boost m) n other = absurd (other m refl)

module _ (b : Boost) (doc : IsDocumented b) where
  is_asio-other :
      (ec : ErrorCode) (e : AsioError) → ((n : ℕ) → ec.category ≢ boost n) → is_asio b ec e ≡ false
  is_asio-other ec e other =
      rw ((doc.asio_boost e).1, same_category-boost ec.category ((doc.asio_boost e).0) other) refl

  any_asio-other :
      (ec : ErrorCode) (es : List AsioError)
      → ((n : ℕ) → ec.category ≢ boost n)
      → any_asio b ec es ≡ false
  unfolding any_asio
  any_asio-other ec [] other = refl
  any_asio-other ec (e ∷ es) other = rw (is_asio-other ec e other) (any_asio-other ec es other)

  default-ozo :
      (e : OzoError) (c : ErrorCode)
      → b.default_equivalent (ozo_error e) c ≡ same_code (ozo_error e) c
  default-ozo e c = doc.default (ozo_error e) c (λ n p. cc)

  default-sqlstate :
      (v : ℕ) (c : ErrorCode)
      → b.default_equivalent (sqlstate_code v) c ≡ same_code (sqlstate_code v) c
  default-sqlstate v c = doc.default (sqlstate_code v) c (λ n p. cc)

  is_sqlstate-ozo : (e : OzoError) (condition : ℕ) → is_sqlstate b (ozo_error e) condition ≡ false
  unfolding is_sqlstate sqlstate_equivalent
  is_sqlstate-ozo e condition = rw (default-ozo, doc.base) refl

  connection-ozo :
      (e : OzoError)
      → match_code b Errc.connection_error (ozo_error e)
        ≡ any_ozo b (ozo_error e) connection_ozo_errors
  unfolding match_code
  connection-ozo e =
      rw
        (
          is_sqlstate-ozo e connection_exception,
          any_asio-other (ozo_error e) connection_asio_errors (λ n p. cc),
          doc.io_ozo e,
        )
        refl

  connection_table :
      (e : OzoError)
      → any_ozo b (ozo_error e) connection_ozo_errors ≡ is_class (classify e) Errc.connection_error
  unfolding any_ozo
  connection_table = elim [ OzoError.ok ↦ refl | _ ↦ refl ]

  introspection_table :
      (e : OzoError)
      → any_ozo b (ozo_error e) introspection_errors
        ≡ is_class (classify e) Errc.introspection_error
  unfolding any_ozo
  introspection_table = elim [ OzoError.ok ↦ refl | _ ↦ refl ]

  type_mismatch_table :
      (e : OzoError)
      → is_ozo b (ozo_error e) oid_type_mismatch ≡ is_class (classify e) Errc.type_mismatch
  type_mismatch_table = elim [ OzoError.ok ↦ refl | _ ↦ refl ]

  protocol_table :
      (e : OzoError)
      → any_ozo b (ozo_error e) protocol_errors ≡ is_class (classify e) Errc.protocol_error
  unfolding any_ozo
  protocol_table = elim [ OzoError.ok ↦ refl | _ ↦ refl ]

  readonly_table : (e : OzoError) → false ≡ is_class (classify e) Errc.database_readonly
  readonly_table = elim [ OzoError.ok ↦ refl | _ ↦ refl ]

  -- With Boost as documented: an error code of the library matches a condition other than `ok`
  -- exactly where `classify` says so, which gives each code one condition, and none to `ok` and to
  -- those of a failed cancel.
  pub is_errc-ozo_error :
      (c : Errc) (e : OzoError) → c ≢ Errc.ok → is_errc b c (ozo_error e) ≡ is_class (classify e) c
  unfolding is_errc match_code
  is_errc-ozo_error Errc.ok e h = absurd (h refl)
  is_errc-ozo_error Errc.connection_error e h =
      rw default-ozo (connection-ozo e ∙ connection_table e)
  is_errc-ozo_error Errc.database_readonly e h =
      rw default-ozo (is_sqlstate-ozo e read_only_sql_transaction ∙ readonly_table e)
  is_errc-ozo_error Errc.introspection_error e h = rw default-ozo (introspection_table e)
  is_errc-ozo_error Errc.type_mismatch e h = rw default-ozo (type_mismatch_table e)
  is_errc-ozo_error Errc.protocol_error e h = rw default-ozo (protocol_table e)

  any_ozo-sqlstate : (v : ℕ) (es : List OzoError) → any_ozo b (sqlstate_code v) es ≡ false
  unfolding any_ozo
  any_ozo-sqlstate v [] = refl
  any_ozo-sqlstate v (e ∷ es) = any_ozo-sqlstate v es

  is_sqlstate_class :
      (v c : ℕ)
      → contains class_conditions c ≡ true
      → is_sqlstate b (sqlstate_code v) c ≡ ((v == c) || value_in v c)
  unfolding is_sqlstate sqlstate_equivalent class_equivalent
  is_sqlstate_class v c h = rw (default-sqlstate, h) refl

  -- With Boost as documented: a SQLSTATE is a connection error exactly if it is of class 08,
  -- whatever the last three characters.
  connection_error-sqlstate :
      (v : ℕ) → is_errc b Errc.connection_error (sqlstate_code v) ≡ (v / class_width == 8)
  unfolding is_errc match_code value_in
  connection_error-sqlstate v =
      rw
        (
          default-sqlstate,
          is_sqlstate_class v connection_exception (unfold contains in refl),
          any_asio-other (sqlstate_code v) connection_asio_errors (λ n p. cc),
          doc.io_sqlstate v,
          any_ozo-sqlstate v connection_ozo_errors,
        )
        (ground arith)

  -- With Boost as documented: a SQLSTATE says that the database is read-only exactly if it is 25006.
  database_readonly-sqlstate :
      (v : ℕ)
      → is_errc b Errc.database_readonly (sqlstate_code v) ≡ (v == read_only_sql_transaction)
  unfolding is_errc match_code is_sqlstate sqlstate_equivalent class_equivalent contains
  database_readonly-sqlstate v = rw (default-sqlstate, default-sqlstate, doc.base) (ground arith)
