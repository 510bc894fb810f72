-- ===== src/Cancel.antt =====
-- cancel.h and impl/cancel.h: the cancelling of an operation.
pub mod Once
mod Examples
use ozo_pg.Base.{
  ℕ, ◌-◌, List, [], ◌∷◌, ◌++◌, Option, none, some, Bool, true, false, if◌then◌else◌, ◌==◌,
}
use ozo_pg.Error.{OzoError, ErrorCode, ozo_error, Boost, timed_out}
use ozo_pg.Connection.Message.{cut}
use ozo_pg.Query.{literal}

-- What the handler is called with: the error, if any, and a message.
abbrev pub CancelCall : Type 0
CancelCall = Option ErrorCode × List ℕ

-- `PQcancel`: whether it has succeeded, and the buffer of 255 characters as it leaves it.
unfoldable pub dispatch_cancel : Bool × List ℕ → CancelCall
unfolding cut
dispatch_cancel (true, buffer) = (none, [])
dispatch_cancel (false, buffer) = (some (ozo_error OzoError.pq_cancel_failed), cut 0 buffer)

-- The context of `deadline_cancel_handler`.
pub record CancelContext : Type 0 where
  pub state : ℕ
  pub timer_cancelled : Bool
  pub calls : List CancelCall

unfoldable pub initial : CancelContext
initial = record { state = 2; timer_cancelled = false; calls = [] }

-- `deadline_cancel_handler::operator ()`
unfoldable pub on_cancelled : CancelCall → CancelContext → CancelContext
on_cancelled call s =
    if s.state - 1 == 0
    then record s { state = s.state - 1 }
    else record s { state = s.state - 1; timer_cancelled = true; calls = s.calls ++ (call ∷ []) }

abbrev pub timed_out_message : List ℕ
timed_out_message = literal "cancel() operation waiting aborted by time-out"

-- `on_timer_expired::operator ()`
unfoldable pub on_timer_expired : Boost → CancelContext → CancelContext
on_timer_expired b s = if s.state - 1 == 0 then record s { state = s.state - 1 } else record s {
  state = s.state - 1;
  calls = s.calls ++ ((some (b.asio timed_out), timed_out_message) ∷ []);
}

-- `cancel_op` has run with what `PQcancel` gave, or the timer has ended: each comes once.
pub data CancelEnd : Type 0 where
  cancelled : Bool × List ℕ → CancelEnd
  timer : CancelEnd

unfoldable pub end_with : Boost → CancelEnd → CancelContext → CancelContext
unfolding dispatch_cancel on_cancelled on_timer_expired
end_with b (cancelled pq) s = on_cancelled (dispatch_cancel pq) s
end_with b timer s = on_timer_expired b s

unfoldable pub end_all : Boost → List CancelEnd → CancelContext → CancelContext
unfolding end_with
end_all b [] s = s
end_all b (e ∷ es) s = end_all b es (end_with b e s)
