-- ===== src/Error.antt =====
-- error.h: the codes and the conditions of the library.
pub mod Base36
pub mod Sqlstate
pub mod Condition
pub mod Messages
pub mod Examples
use ozo_pg.Base.{ℕ, List, [], ◌∷◌, Bool, true, false, ◌&&◌, ◌||◌, ◌==◌, if◌then◌else◌}
use Sqlstate.Class.{class_equivalent}

-- `error::code`, in the order of its values.
pub data OzoError : Type 0 where
  ok pq_connection_start_failed pq_socket_failed pq_connection_status_bad : OzoError
  pq_connect_poll_failed oid_type_mismatch unexpected_eof pg_send_query_params_failed : OzoError
  pg_consume_input_failed pg_set_nonblocking_failed pg_flush_failed bad_result_process : OzoError
  no_sql_state_found result_status_unexpected result_status_empty_query : OzoError
  result_status_bad_response oid_request_failed bad_object_size bad_array_size : OzoError
  bad_array_dimension bad_composite_size pq_cancel_failed pq_get_cancel_failed : OzoError

abbrev pub ozo_value : OzoError → ℕ
ozo_value OzoError.ok = 0
ozo_value OzoError.pq_connection_start_failed = 1
ozo_value OzoError.pq_socket_failed = 2
ozo_value OzoError.pq_connection_status_bad = 3
ozo_value OzoError.pq_connect_poll_failed = 4
ozo_value OzoError.oid_type_mismatch = 5
ozo_value OzoError.unexpected_eof = 6
ozo_value OzoError.pg_send_query_params_failed = 7
ozo_value OzoError.pg_consume_input_failed = 8
ozo_value OzoError.pg_set_nonblocking_failed = 9
ozo_value OzoError.pg_flush_failed = 10
ozo_value OzoError.bad_result_process = 11
ozo_value OzoError.no_sql_state_found = 12
ozo_value OzoError.result_status_unexpected = 13
ozo_value OzoError.result_status_empty_query = 14
ozo_value OzoError.result_status_bad_response = 15
ozo_value OzoError.oid_request_failed = 16
ozo_value OzoError.bad_object_size = 17
ozo_value OzoError.bad_array_size = 18
ozo_value OzoError.bad_array_dimension = 19
ozo_value OzoError.bad_composite_size = 20
ozo_value OzoError.pq_cancel_failed = 21
ozo_value OzoError.pq_get_cancel_failed = 22

-- The categories: the three of the library, and those of Boost by number.
pub data Category : Type 0 where
  ozo sql_state errc : Category
  boost : ℕ → Category

abbrev pub same_category : Category → Category → Bool
same_category ozo ozo = true
same_category sql_state sql_state = true
same_category errc errc = true
same_category (boost m) (boost n) = m == n
same_category _ _ = false

-- An error code, and an error condition, is a value of a category.
pub record ErrorCode : Type 0 where
  pub category : Category
  pub value : ℕ

abbrev pub same_code : ErrorCode → ErrorCode → Bool
same_code a b = same_category a.category b.category && a.value == b.value

abbrev pub ozo_error : OzoError → ErrorCode
ozo_error e = record { category = ozo; value = ozo_value e }

-- `errc::code`.
pub data Errc : Type 0 where
  ok connection_error database_readonly introspection_error type_mismatch protocol_error : Errc

abbrev pub errc_value : Errc → ℕ
errc_value Errc.ok = 0
errc_value Errc.connection_error = 1
errc_value Errc.database_readonly = 2
errc_value Errc.introspection_error = 3
errc_value Errc.type_mismatch = 4
errc_value Errc.protocol_error = 5

-- The codes of `boost::asio::error` that the library names, and the one of `boost::system::errc`.
pub data AsioError : Type 0 where
  broken_pipe connection_aborted connection_refused connection_reset fault : AsioError
  host_unreachable interrupted network_reset not_connected operation_aborted : AsioError
  shut_down timed_out try_again host_not_found host_not_found_try_again : AsioError
  no_data no_recovery : AsioError

-- What the conditions use of Boost: the values of its codes, `ec == boost::system::errc::io_error`,
-- `error_category::equivalent(const error_code&, int)`, and the test that
-- `operator ==(const error_code&, const error_condition&)` makes by the category of the code.
pub record Boost : Type 0 where
  pub asio : AsioError → ErrorCode
  pub io_error : ErrorCode → Bool
  pub base_equivalent : ErrorCode → ErrorCode → Bool
  pub default_equivalent : ErrorCode → ErrorCode → Bool

abbrev pub connection_exception : ℕ
connection_exception = 373248

abbrev pub read_only_sql_transaction : ℕ
read_only_sql_transaction = 3592518

module _ (b : Boost) where
  -- `sqlstate::impl::category::equivalent`.
  unfoldable pub sqlstate_equivalent : ErrorCode → ℕ → Bool
  sqlstate_equivalent ec condition =
      let base = b.base_equivalent ec (record { category = sql_state; value = condition }) in
      if same_category ec.category sql_state then class_equivalent ec.value condition base else base

  -- `ec == c` for an enumerator of `sqlstate::code`.
  unfoldable pub is_sqlstate : ErrorCode → ℕ → Bool
  is_sqlstate ec condition =
      b.default_equivalent ec (record { category = sql_state; value = condition })
      || sqlstate_equivalent ec condition

  abbrev pub is_asio : ErrorCode → AsioError → Bool
  is_asio ec e = same_code ec (b.asio e)

  abbrev pub is_ozo : ErrorCode → OzoError → Bool
  is_ozo ec e = same_code ec (ozo_error e)

  unfoldable pub any_asio : ErrorCode → List AsioError → Bool
  any_asio ec [] = false
  any_asio ec (e ∷ es) = is_asio ec e || any_asio ec es

  unfoldable pub any_ozo : ErrorCode → List OzoError → Bool
  any_ozo ec [] = false
  any_ozo ec (e ∷ es) = is_ozo ec e || any_ozo ec es

abbrev pub connection_asio_errors : List AsioError
connection_asio_errors =
    broken_pipe ∷ connection_aborted ∷ connection_refused ∷ connection_reset ∷ fault
    ∷ host_unreachable ∷ interrupted ∷ network_reset ∷ not_connected ∷ operation_aborted ∷ shut_down
    ∷ timed_out ∷ try_again ∷ host_not_found ∷ host_not_found_try_again ∷ no_data ∷ no_recovery ∷ []

abbrev pub connection_ozo_errors : List OzoError
connection_ozo_errors =
    pq_connection_start_failed ∷ pq_socket_failed ∷ pq_connection_status_bad
    ∷ pq_connect_poll_failed ∷ pg_send_query_params_failed ∷ pg_consume_input_failed
    ∷ pg_set_nonblocking_failed ∷ pg_flush_failed ∷ []

abbrev pub introspection_errors : List OzoError
introspection_errors =
    bad_result_process ∷ bad_object_size ∷ bad_array_size ∷ bad_array_dimension ∷ bad_composite_size
    ∷ unexpected_eof ∷ []

abbrev pub protocol_errors : List OzoError
protocol_errors =
    no_sql_state_found ∷ result_status_unexpected ∷ result_status_empty_query
    ∷ result_status_bad_response ∷ oid_request_failed ∷ []

module _ (b : Boost) where
  -- `errc::impl::match_code<Code>`, over `codes_for_condition<Code>`.
  unfoldable pub match_code : Errc → ErrorCode → Bool
  match_code Errc.ok ec = same_code ec (record { category = boost 0; value = 0 })
  match_code Errc.connection_error ec =
      is_sqlstate b ec connection_exception
      || (any_asio b ec connection_asio_errors
          || (b.io_error ec || any_ozo b ec connection_ozo_errors))
  match_code Errc.database_readonly ec = is_sqlstate b ec read_only_sql_transaction
  match_code Errc.introspection_error ec = any_ozo b ec introspection_errors
  match_code Errc.type_mismatch ec = is_ozo b ec oid_type_mismatch
  match_code Errc.protocol_error ec = any_ozo b ec protocol_errors

  -- `ec == e` for an enumerator of `errc::code`: the switch of `errc::impl::category::equivalent` has a
  -- case for each.
  unfoldable pub is_errc : Errc → ErrorCode → Bool
  is_errc e ec =
      b.default_equivalent ec (record { category = errc; value = errc_value e }) || match_code e ec

  -- `errc::match_code` on a tuple of conditions.
  unfoldable pub match_any : List Errc → ErrorCode → Bool
  match_any [] ec = false
  match_any (e ∷ es) ec = is_errc e ec || match_any es ec
