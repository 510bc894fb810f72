-- ===== src/Request.antt =====
-- impl/async_request.h: a request in progress. Its two operations, `async_send_query_params_op` and
-- `async_get_result_op`, wait for the socket, and share the connection, the handler and the state of
-- the query. libpq and the processing of a result are parameters.
pub mod Calls
pub mod Sound
pub mod Start
pub mod Reached
pub mod Drain
pub mod Timed
mod Examples
use ozo_pg.Base.{
  ℕ, zero, suc, ◌≡◌, List, [], ◌∷◌, ◌++◌, Option, none, some, Bool, true, false, if◌then◌else◌,
}
use ozo_pg.Error.{ErrorCode, OzoError, operation_aborted, Boost, sql_state, same_code, ozo_error}

pub data QueryState : Type 0 where
  error send_finish send_in_progress : QueryState

-- `ExecStatusType`, as far as the code tells the statuses apart; `other` are those it does not expect.
pub data Status : Type 0 where
  single_tuple tuples_ok command_ok bad_response empty_query fatal_error : Status
  other : ℕ → Status

-- The functions of libpq on a native handle, which has the network behind it. A `true` is a failure of
-- `set_nonblocking` and of `consume_input`, and a success of `send_query_params`. The results that are
-- left of a query are finite in number.
pub record Libpq : Type 1 where
  pub Native : Type 0
  pub Res : Type 0
  pub set_nonblocking : Native → Bool × Native
  pub send_query_params : Native → Bool × Native
  pub flush_output : Native → QueryState × Native
  pub consume_input : Native → Bool × Native
  pub is_busy : Native → Bool
  pub get_result : Native → Option Res × Native
  pub result_status : Res → Status
  pub sqlstate_field : Res → Option ℕ
  pub results_left : Native → ℕ

-- Where the coroutine of `async_get_result_op` stands: in the first loop, in the loop that drops the
-- results behind the one it holds, or returned.
pub data Reader (R : Type 0) : Type 0 where
  waits_first : Reader R
  waits_rest : R → Reader R
  returned : Reader R

module _ (pq : Libpq) (b : Boost) (bad_descriptor : ErrorCode) (process : pq.Res → Bool) where
  open pq use {Native, Res}

  -- `request_operation_context`; `calls` are the calls of the handler, `cancelled` is whether `cancel()` of
  -- the connection has been called. `sending` is whether a wait for the socket to be writable is pending.
  pub record Request : Type 0 where
    pub native : Native
    pub state : QueryState
    pub sending : Bool
    pub reader : Reader Res
    pub calls : List (Option ErrorCode)
    pub cancelled : Bool

  -- `done(ctx, ec)` and `done(ctx)`.
  abbrev pub done_with : ErrorCode → Request → Request
  done_with ec s = record s { state = error; cancelled = true; calls = s.calls ++ (some ec ∷ []) }

  abbrev pub done : Request → Request
  done s = record s { calls = s.calls ++ (none ∷ []) }

  abbrev pub on_flush : QueryState → Request → Request
  on_flush error s = done_with (ozo_error OzoError.pg_flush_failed) s
  on_flush send_in_progress s = record s { sending = true }
  on_flush send_finish s = record s { state = send_finish }

  abbrev pub flush : Request → Request
  flush s = let (q, native) = pq.flush_output s.native in on_flush q (record s { native = native })

  -- `async_send_query_params_op::operator ()`.
  abbrev pub write_unless : Option ErrorCode → Request → Request
  write_unless none s = flush s
  write_unless (some ec) s = done_with ec s

  abbrev pub on_written_at : QueryState → Option ErrorCode → Request → Request
  on_written_at error ec s = s
  on_written_at send_finish ec s = s
  on_written_at send_in_progress ec s = write_unless ec s

  abbrev pub on_written : Option ErrorCode → Request → Request
  on_written ec s = on_written_at s.state ec s

  -- `async_send_query_params_op::perform`.
  abbrev pub on_sent : Bool → Request → Request
  on_sent false s = done_with (ozo_error OzoError.pg_send_query_params_failed) s
  on_sent true s = on_written none s

  abbrev pub on_nonblocking : Bool → Request → Request
  on_nonblocking true s = done_with (ozo_error OzoError.pg_set_nonblocking_failed) s
  on_nonblocking false s =
      let (sent, native) = pq.send_query_params s.native in
      on_sent sent (record s { native = native })

  abbrev pub send_perform : Request → Request
  send_perform s =
      let (failed, native) = pq.set_nonblocking s.native in
      on_nonblocking failed (record s { native = native })

  -- `result_error` of impl/io.h.
  abbrev pub result_error : Option ℕ → ErrorCode
  result_error none = ozo_error OzoError.no_sql_state_found
  result_error (some v) = record { category = sql_state; value = v }

  -- `handle_result` and `process_and_done`; `process` is whether the processing of a result throws nothing.
  abbrev pub process_and_done : Bool → Request → Request
  process_and_done true s = done s
  process_and_done false s = done_with (ozo_error OzoError.bad_result_process) s

  abbrev pub handle_status : Status → Res → Request → Request
  handle_status single_tuple r s = process_and_done (process r) s
  handle_status tuples_ok r s = process_and_done (process r) s
  handle_status command_ok r s = process_and_done (process r) s
  handle_status bad_response r s = done_with (ozo_error OzoError.result_status_bad_response) s
  handle_status empty_query r s = done_with (ozo_error OzoError.result_status_empty_query) s
  handle_status fatal_error r s = done_with (result_error (pq.sqlstate_field r)) s
  handle_status (other n) r s = done_with (ozo_error OzoError.result_status_unexpected) s

  abbrev pub handle_result : Res → Request → Request
  handle_result r s = handle_status (pq.result_status r) r (record s { reader = returned })

  -- The second loop: the handle after it, and whether it goes on to wait for the socket.
  unfoldable pub drain : ℕ → Native → Bool × Native
  drain zero n = (true, n)
  drain (suc fuel) n =
      let (r, n') = pq.get_result n in
      let rest = drain fuel n' in
      if pq.is_busy n then (true, n) else elim r [ none ↦ (false, n') | some r' ↦ rest ]

  abbrev pub on_drained : Res → Bool → Request → Request
  on_drained r true s = record s { reader = waits_rest r }
  on_drained r false s = handle_result r s

  unfoldable pub read_rest : Res → Request → Request
  unfolding drain
  read_rest r s =
      let (waits, native) = drain (suc (pq.results_left s.native)) s.native in
      on_drained r waits (record s { native = native })

  abbrev pub on_status : Status → Res → Request → Request
  on_status single_tuple r s = handle_result r s
  on_status tuples_ok r s = read_rest r s
  on_status command_ok r s = read_rest r s
  on_status bad_response r s = read_rest r s
  on_status empty_query r s = read_rest r s
  on_status fatal_error r s = read_rest r s
  on_status (other n) r s = read_rest r s

  abbrev pub on_result : Option Res → Request → Request
  on_result none s = done (record s { reader = returned })
  on_result (some r) s = on_status (pq.result_status r) r s

  -- The first loop.
  abbrev pub read_when : Bool → Request → Request
  read_when true s = record s { reader = waits_first }
  read_when false s =
      let (r, native) = pq.get_result s.native in on_result r (record s { native = native })

  abbrev pub read_first : Request → Request
  read_first s = read_when (pq.is_busy s.native) s

  -- A wait has ended without an error: the input is consumed, and the loop that waited goes on.
  abbrev pub on_consumed : Bool → Reader Res → Request → Request
  on_consumed failed returned s = s
  on_consumed true waits_first s =
      done_with (ozo_error OzoError.pg_consume_input_failed) (record s { reader = returned })
  on_consumed false waits_first s = read_first s
  on_consumed true (waits_rest r) s = handle_result r s
  on_consumed false (waits_rest r) s = read_rest r s

  abbrev pub read_unless : Option ErrorCode → Request → Request
  read_unless none s =
      let (failed, native) = pq.consume_input s.native in
      on_consumed failed s.reader (record s { native = native })
  read_unless (some ec) s =
      done_with (if same_code ec bad_descriptor then b.asio operation_aborted else ec)
        (record s { reader = returned })

  -- `async_get_result_op::operator ()` after a wait.
  abbrev pub on_readable_at : QueryState → Option ErrorCode → Request → Request
  on_readable_at error ec s = record s { reader = returned }
  on_readable_at send_finish ec s = read_unless ec s
  on_readable_at send_in_progress ec s = read_unless ec s

  abbrev pub on_readable : Option ErrorCode → Request → Request
  on_readable ec s = on_readable_at s.state ec s

  -- `async_get_result_op::perform`.
  abbrev pub read_perform_at : QueryState → Request → Request
  read_perform_at error s = record s { reader = returned }
  read_perform_at send_finish s = read_first s
  read_perform_at send_in_progress s = read_first s

  abbrev pub read_perform : Request → Request
  read_perform s = read_perform_at s.state s

  -- `async_request_op::operator ()` with a connection.
  abbrev pub start : Native → Request
  start n = read_perform (
      send_perform (record {
        native = n;
        state = send_in_progress;
        sending = false;
        reader = waits_first;
        calls = [];
        cancelled = false;
      }))

  abbrev pub IsWaiting : Reader Res → Type 0
  IsWaiting waits_first = Unit
  IsWaiting (waits_rest r) = Unit
  IsWaiting returned = ⊥

  -- A pending wait ends, with or without an error. In between, the native handle may become any other.
  pub data Step : Request → Request → Type 0 where
    written :
        (s : Request) (n : Native) (ec : Option ErrorCode)
        → s.sending ≡ true
        → Step s (on_written ec (record s { native = n; sending = false }))
    readable :
        (s : Request) (n : Native) (ec : Option ErrorCode)
        → IsWaiting s.reader
        → Step s (on_readable ec (record s { native = n }))

  pub data Reachable : Request → Type 0 where
    started : (n : Native) → Reachable (start n)
    after : (s s' : Request) → Reachable s → Step s s' → Reachable s'
