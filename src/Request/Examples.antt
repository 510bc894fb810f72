-- ===== src/Request/Examples.antt =====
-- A libpq with a given number of waits and of results, and requests on it.
use ozo_pg.Base.{
  ℕ, zero, suc, ◌-◌, ◌<◌, ◌≡◌, refl, ◌⊎◌, [], ◌∷◌, Option, none, some, Bool, true, false, ltb,
  if◌then◌else◌, length,
}
use ozo_pg.Error.{ErrorCode, boost}
use ozo_pg.Error.Examples.{linux}
use ozo_pg.Request.{
  error, send_finish, send_in_progress, tuples_ok, Libpq, Request, drain, read_rest, start,
  on_written, on_readable, written, readable, Reachable, started, after,
}
use ozo_pg.Request.Calls.{IsCalledOnce}
use ozo_pg.Request.Sound.{has_returned}
use ozo_pg.Request.Reached.{Reachable-calls, Reachable-calls_returned}

abbrev pub next_result : ℕ → ℕ → Option ℕ × (ℕ × ℕ)
next_result w zero = (none, (w, zero))
next_result w (suc n) = (some n, (w, n))

-- The pairs are the waits and the results that are left.
abbrev pub pq : Libpq
pq = record {
  Native = ℕ × ℕ;
  Res = ℕ;
  set_nonblocking = λ n. (false, n);
  send_query_params = λ n. (true, n);
  flush_output = λ n. (if ltb 0 n.0 then send_in_progress else send_finish, n);
  consume_input = λ n. (false, (n.0 - 1, n.1));
  is_busy = λ n. ltb 0 n.0;
  get_result = λ n. next_result n.0 n.1;
  result_status = λ r. tuples_ok;
  sqlstate_field = λ r. none;
  results_left = λ n. n.1;
}

abbrev pub bad_descriptor : ErrorCode
bad_descriptor = record { category = boost 0; value = 9 }

abbrev aborted : ErrorCode
aborted = record { category = boost 0; value = 125 }

abbrev pub process : ℕ → Bool
process r = true

abbrev Demo : Type 0
Demo = Request pq linux bad_descriptor process

-- The query is being sent while its result is waited for.
abbrev sending : Demo
sending = start pq linux bad_descriptor process (1, 1)

-- The result has come, with the wait of the sender pending; then that wait is aborted.
abbrev answered : Demo
answered = on_readable pq linux bad_descriptor process none (record sending { native = (1, 1) })

abbrev called_again : Demo
called_again =
    on_written pq linux bad_descriptor process (some aborted)
      (record answered { native = (0, 0); sending = false })

answered-Reachable : Reachable pq linux bad_descriptor process answered
answered-Reachable = after sending answered (started (1, 1)) (readable sending (1, 1) none tt)

answered-sending : answered.sending ≡ true
unfolding read_rest drain
answered-sending = refl

called_again-Reachable : Reachable pq linux bad_descriptor process called_again
called_again-Reachable =
    after answered called_again answered-Reachable
      (written answered (0, 0) (some aborted) answered-sending)

-- The handler of this request is called twice.
called_again-calls : called_again.calls ≡ none ∷ some aborted ∷ []
unfolding read_rest drain
called_again-calls = refl

Reachable-calls_example :
    (called_again.calls ≡ [])
    ⊎ (IsCalledOnce called_again.calls
        ⊎ ((ec : ErrorCode) × (called_again.calls ≡ none ∷ some ec ∷ [])
            × (called_again.state ≡ error)))
Reachable-calls_example =
    Reachable-calls pq linux bad_descriptor process called_again called_again-Reachable

-- A request that is sent and answered at once.
abbrev prompt : Demo
prompt = start pq linux bad_descriptor process (0, 1)

prompt-sent : prompt.state ≡ send_finish
unfolding read_rest drain
prompt-sent = refl

prompt-returned : has_returned pq linux bad_descriptor process prompt.reader ≡ true
unfolding read_rest drain
prompt-returned = refl

Reachable-calls_returned_example : 0 < length prompt.calls
Reachable-calls_returned_example =
    Reachable-calls_returned pq linux bad_descriptor process prompt (started (0, 1)) prompt-returned

busy_drain : (drain pq linux bad_descriptor process 3 (1, 2)).0 ≡ true
unfolding drain
busy_drain = refl
