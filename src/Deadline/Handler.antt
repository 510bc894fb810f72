-- ===== src/Deadline/Handler.antt =====
-- detail/deadline.h: `io_deadline_handler`, which an operation with a time constraint calls in place of
-- its handler. The operation and the timer come to an end once each, the timer with an error if it was
-- cancelled, which its handler does not look at.
pub mod Once
pub mod Around
use ozo_pg.Base.{
  ℕ, ◌-◌, List, [], ◌∷◌, ◌++◌, Option, none, some, Bool, true, false, ◌==◌, if◌then◌else◌,
}
use ozo_pg.Error.{ErrorCode, timed_out, Boost}

-- What the handler is called with: the error, if any, and the result, none being a value-initialised one.
abbrev pub Call : Type 0 → Type 0
Call R = Option ErrorCode × Option R

-- The context that both sides share; `stream_cancelled` and `timer_cancelled` are whether `cancel()` of the
-- stream and of the timer has been called.
pub record DeadlineContext (R : Type 0) : Type 0 where
  pub first_call : ℕ
  pub ec : Option ErrorCode
  pub result : Option R
  pub stream_cancelled : Bool
  pub timer_cancelled : Bool
  pub calls : List (Call R)

unfoldable pub initial : {R : Type 0} → DeadlineContext R
initial = record {
  first_call = 2;
  ec = none;
  result = none;
  stream_cancelled = false;
  timer_cancelled = false;
  calls = [];
}

-- `io_deadline_handler::operator ()`.
unfoldable pub on_operation :
    {R : Type 0} → Option ErrorCode → R → DeadlineContext R → DeadlineContext R
on_operation ec r s =
    if s.first_call - 1 == 0
    then record s { first_call = s.first_call - 1; calls = s.calls ++ ((s.ec, some r) ∷ []) }
    else record s {
      first_call = s.first_call - 1;
      timer_cancelled = true;
      ec = ec;
      result = some r;
    }

-- `timer_handler::operator ()`.
unfoldable pub on_timer : {R : Type 0} → Boost → DeadlineContext R → DeadlineContext R
on_timer b s =
    if s.first_call - 1 == 0
    then record s { first_call = s.first_call - 1; calls = s.calls ++ ((s.ec, s.result) ∷ []) }
    else record s {
      first_call = s.first_call - 1;
      stream_cancelled = true;
      ec = some (b.asio timed_out);
    }

-- The ends, in the order in which they come.
pub data End (R : Type 0) : Type 0 where
  operation : Option ErrorCode → R → End R
  timer : End R

unfoldable pub run_ends :
    {R : Type 0} → Boost → List (End R) → DeadlineContext R → DeadlineContext R
unfolding on_operation on_timer
run_ends b [] s = s
run_ends b (operation ec r ∷ es) s = run_ends b es (on_operation ec r s)
run_ends b (timer ∷ es) s = run_ends b es (on_timer b s)

-- The calls that an operation makes of its handler, this one being the deadline handler.
unfoldable pub deliver :
    {R : Type 0} → List (Option ErrorCode) → R → DeadlineContext R → DeadlineContext R
unfolding on_operation
deliver [] r c = c
deliver (ec ∷ ecs) r c = deliver ecs r (on_operation ec r c)
