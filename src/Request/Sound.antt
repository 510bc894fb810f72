-- ===== src/Request/Sound.antt =====
-- Each part of a request's operations keeps its state and the calls of its handler together.
use ozo_pg.Base.{suc, ◌≡◌, refl, List, Option, none, some, Bool, true, false}
use ozo_pg.Error.{ErrorCode, OzoError, Boost, ozo_error}
use ozo_pg.Request.{
  QueryState, error, send_finish, send_in_progress, Status, single_tuple, tuples_ok, command_ok,
  bad_response, empty_query, fatal_error, other, Libpq, Reader, waits_first, waits_rest, returned,
  Request, on_flush, flush, write_unless, on_written_at, on_written, on_sent, on_nonblocking,
  process_and_done, handle_status, handle_result, drain, on_drained, read_rest, on_status,
  on_result, read_when, read_first, on_consumed, read_unless, on_readable_at, IsWaiting,
}
use ozo_pg.Request.Calls.{
  IsLive, Calls, fail-Calls, return_failed-Calls, return_done-Calls, return-Calls, relive-Calls,
}

module _ (pq : Libpq) (b : Boost) (bad_descriptor : ErrorCode) (process : pq.Res → Bool) where
  abbrev pub SharedRequest : Type 0
  SharedRequest = Request pq b bad_descriptor process

  abbrev pub has_returned : Reader pq.Res → Bool
  has_returned waits_first = false
  has_returned (waits_rest r) = false
  has_returned returned = true

  abbrev pub IsSound : SharedRequest → Type 0
  IsSound s = Calls (has_returned s.reader) s.state s.calls

  pub on_flush-IsSound :
      (q : QueryState) (s : SharedRequest)
      → IsLive s.state
      → IsSound s
      → IsSound (on_flush pq b bad_descriptor process q s)
  on_flush-IsSound error s live h =
      fail-Calls (has_returned s.reader) s.state s.calls (ozo_error OzoError.pg_flush_failed) live h
  on_flush-IsSound send_in_progress s live h = h
  on_flush-IsSound send_finish s live h =
      relive-Calls (has_returned s.reader) s.state send_finish s.calls live tt h

  pub flush-IsSound :
      (s : SharedRequest)
      → IsLive s.state
      → IsSound s
      → IsSound (flush pq b bad_descriptor process s)
  flush-IsSound s live h =
      let (q, native) = pq.flush_output s.native in
      on_flush-IsSound q (record s { native = native }) live h

  pub write_unless-IsSound :
      (ec : Option ErrorCode) (s : SharedRequest)
      → IsLive s.state
      → IsSound s
      → IsSound (write_unless pq b bad_descriptor process ec s)
  write_unless-IsSound none s live h = flush-IsSound s live h
  write_unless-IsSound (some ec) s live h =
      fail-Calls (has_returned s.reader) s.state s.calls ec live h

  pub on_written_at-IsSound :
      (q : QueryState) (ec : Option ErrorCode) (s : SharedRequest)
      → s.state ≡ q
      → IsSound s
      → IsSound (on_written_at pq b bad_descriptor process q ec s)
  on_written_at-IsSound error ec s e h = h
  on_written_at-IsSound send_finish ec s e h = h
  on_written_at-IsSound send_in_progress ec s e h = write_unless-IsSound ec s (rw e tt) h

  pub on_written-IsSound :
      (ec : Option ErrorCode) (s : SharedRequest)
      → IsSound s
      → IsSound (on_written pq b bad_descriptor process ec s)
  on_written-IsSound ec s h = on_written_at-IsSound s.state ec s refl h

  pub on_sent-IsSound :
      (sent : Bool) (s : SharedRequest)
      → IsLive s.state
      → IsSound s
      → IsSound (on_sent pq b bad_descriptor process sent s)
  on_sent-IsSound true s live h = on_written-IsSound none s h
  on_sent-IsSound false s live h =
      fail-Calls (has_returned s.reader) s.state s.calls
        (ozo_error OzoError.pg_send_query_params_failed) live h

  pub on_nonblocking-IsSound :
      (refused : Bool) (s : SharedRequest)
      → IsLive s.state
      → IsSound s
      → IsSound (on_nonblocking pq b bad_descriptor process refused s)
  on_nonblocking-IsSound true s live h =
      fail-Calls (has_returned s.reader) s.state s.calls
        (ozo_error OzoError.pg_set_nonblocking_failed) live h
  on_nonblocking-IsSound false s live h =
      let (sent, native) = pq.send_query_params s.native in
      on_sent-IsSound sent (record s { native = native }) live h

  pub process_and_done-IsSound :
      (ok : Bool) (s : SharedRequest)
      → IsLive s.state
      → Calls false s.state s.calls
      → IsSound (process_and_done pq b bad_descriptor process ok (record s { reader = returned }))
  process_and_done-IsSound true s live h = return_done-Calls s.state s.calls live h
  process_and_done-IsSound false s live h =
      return_failed-Calls s.state s.calls (ozo_error OzoError.bad_result_process) live h

  pub handle_status-IsSound :
      (status : Status) (r : pq.Res) (s : SharedRequest)
      → IsLive s.state
      → Calls false s.state s.calls
      → IsSound
          (handle_status pq b bad_descriptor process status r (record s { reader = returned }))
  handle_status-IsSound single_tuple r s live h = process_and_done-IsSound (process r) s live h
  handle_status-IsSound tuples_ok r s live h = process_and_done-IsSound (process r) s live h
  handle_status-IsSound command_ok r s live h = process_and_done-IsSound (process r) s live h
  handle_status-IsSound bad_response r s live h =
      return_failed-Calls s.state s.calls (ozo_error OzoError.result_status_bad_response) live h
  handle_status-IsSound empty_query r s live h =
      return_failed-Calls s.state s.calls (ozo_error OzoError.result_status_empty_query) live h
  handle_status-IsSound fatal_error r s live h = return_failed-Calls s.state s.calls _ live h
  handle_status-IsSound (other n) r s live h =
      return_failed-Calls s.state s.calls (ozo_error OzoError.result_status_unexpected) live h

  pub handle_result-IsSound :
      (r : pq.Res) (s : SharedRequest)
      → IsLive s.state
      → Calls false s.state s.calls
      → IsSound (handle_result pq b bad_descriptor process r s)
  handle_result-IsSound r s live h = handle_status-IsSound (pq.result_status r) r s live h

  pub on_drained-IsSound :
      (r : pq.Res) (waits : Bool) (s : SharedRequest)
      → IsLive s.state
      → Calls false s.state s.calls
      → IsSound (on_drained pq b bad_descriptor process r waits s)
  on_drained-IsSound r true s live h = h
  on_drained-IsSound r false s live h = handle_result-IsSound r s live h

  pub read_rest-IsSound :
      (r : pq.Res) (s : SharedRequest)
      → IsLive s.state
      → Calls false s.state s.calls
      → IsSound (read_rest pq b bad_descriptor process r s)
  unfolding read_rest
  read_rest-IsSound r s live h =
      let (waits, native) =
        drain pq b bad_descriptor process (suc (pq.results_left s.native)) s.native in
      on_drained-IsSound r waits (record s { native = native }) live h

  pub on_status-IsSound :
      (status : Status) (r : pq.Res) (s : SharedRequest)
      → IsLive s.state
      → Calls false s.state s.calls
      → IsSound (on_status pq b bad_descriptor process status r s)
  on_status-IsSound single_tuple r s live h = handle_result-IsSound r s live h
  on_status-IsSound tuples_ok r s live h = read_rest-IsSound r s live h
  on_status-IsSound command_ok r s live h = read_rest-IsSound r s live h
  on_status-IsSound bad_response r s live h = read_rest-IsSound r s live h
  on_status-IsSound empty_query r s live h = read_rest-IsSound r s live h
  on_status-IsSound fatal_error r s live h = read_rest-IsSound r s live h
  on_status-IsSound (other n) r s live h = read_rest-IsSound r s live h

  pub on_result-IsSound :
      (r : Option pq.Res) (s : SharedRequest)
      → IsLive s.state
      → Calls false s.state s.calls
      → IsSound (on_result pq b bad_descriptor process r s)
  on_result-IsSound none s live h = return_done-Calls s.state s.calls live h
  on_result-IsSound (some r) s live h = on_status-IsSound (pq.result_status r) r s live h

  pub read_when-IsSound :
      (busy : Bool) (s : SharedRequest)
      → IsLive s.state
      → Calls false s.state s.calls
      → IsSound (read_when pq b bad_descriptor process busy s)
  read_when-IsSound true s live h = h
  read_when-IsSound false s live h =
      let (r, native) = pq.get_result s.native in
      on_result-IsSound r (record s { native = native }) live h

  pub read_first-IsSound :
      (s : SharedRequest)
      → IsLive s.state
      → Calls false s.state s.calls
      → IsSound (read_first pq b bad_descriptor process s)
  read_first-IsSound s live h = read_when-IsSound (pq.is_busy s.native) s live h

  pub on_consumed-IsSound :
      (refused : Bool) (reader : Reader pq.Res) (s : SharedRequest)
      → IsWaiting pq b bad_descriptor process reader
      → IsLive s.state
      → Calls false s.state s.calls
      → IsSound (on_consumed pq b bad_descriptor process refused reader s)
  on_consumed-IsSound refused returned s w live h = absurd w
  on_consumed-IsSound true waits_first s w live h =
      return_failed-Calls s.state s.calls (ozo_error OzoError.pg_consume_input_failed) live h
  on_consumed-IsSound false waits_first s w live h = read_first-IsSound s live h
  on_consumed-IsSound true (waits_rest r) s w live h = handle_result-IsSound r s live h
  on_consumed-IsSound false (waits_rest r) s w live h = read_rest-IsSound r s live h

  pub read_unless-IsSound :
      (ec : Option ErrorCode) (s : SharedRequest)
      → IsWaiting pq b bad_descriptor process s.reader
      → IsLive s.state
      → Calls false s.state s.calls
      → IsSound (read_unless pq b bad_descriptor process ec s)
  read_unless-IsSound none s w live h =
      let (refused, native) = pq.consume_input s.native in
      on_consumed-IsSound refused s.reader (record s { native = native }) w live h
  read_unless-IsSound (some ec) s w live h = return_failed-Calls s.state s.calls _ live h

  waiting_lem :
      (reader : Reader pq.Res) (q : QueryState) (cs : List (Option ErrorCode))
      → IsWaiting pq b bad_descriptor process reader
      → Calls (has_returned reader) q cs
      → Calls false q cs
  waiting_lem waits_first q cs w h = h
  waiting_lem (waits_rest r) q cs w h = h
  waiting_lem returned q cs w h = absurd w

  pub on_readable_at-IsSound :
      (q : QueryState) (ec : Option ErrorCode) (s : SharedRequest)
      → s.state ≡ q
      → IsWaiting pq b bad_descriptor process s.reader
      → IsSound s
      → IsSound (on_readable_at pq b bad_descriptor process q ec s)
  on_readable_at-IsSound error ec s e w h = return-Calls (has_returned s.reader) s.state s.calls e h
  on_readable_at-IsSound send_finish ec s e w h =
      read_unless-IsSound ec s w (rw e tt) (waiting_lem s.reader s.state s.calls w h)
  on_readable_at-IsSound send_in_progress ec s e w h =
      read_unless-IsSound ec s w (rw e tt) (waiting_lem s.reader s.state s.calls w h)
