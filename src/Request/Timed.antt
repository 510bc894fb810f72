-- ===== src/Request/Timed.antt =====
-- impl/async_request.h with detail/deadline.h: a request whose handler is an `io_deadline_handler`, and
-- `async_request_op`, which starts a request, with a time constraint or without, if there is a connection;
-- impl/async_execute.h does the same without an output.
pub mod Once
mod Examples
use ozo_pg.Base.{ℕ, ◌≡◌, List, [], ◌∷◌, ◌++◌, Option, none, some, Bool, true, false, map}
use ozo_pg.Error.{ErrorCode, Boost}
use ozo_pg.Deadline.{TimeConstraint, at, within, deadline}
use ozo_pg.Provider.{Provider, async_get_connection}
use ozo_pg.Deadline.Handler.{DeadlineContext, initial, on_operation, on_timer, deliver}
use ozo_pg.Request.{Libpq, Request, Step, start}

module _ (pq : Libpq) (b : Boost) (bad_descriptor : ErrorCode) (process : pq.Res → Bool) where
  open pq use {Native}

  -- The request and the context of the deadline handler; `timing` is whether the wait of the timer is
  -- pending. The result of the handler is the connection.
  pub record Timed : Type 0 where
    pub request : Request pq b bad_descriptor process
    pub context : DeadlineContext Native
    pub timing : Bool

  unfoldable pub start_timed : Native → Timed
  unfolding deliver
  start_timed n =
      let request = start pq b bad_descriptor process n in
      record {
        request = request;
        context = deliver request.calls request.native initial;
        timing = true;
      }

  -- `async_request_op`: what comes of it, with a connection or with an error in place of one.
  pub data Operation : Type 0 where
    refused : ErrorCode → Native → Operation
    unlimited : Request pq b bad_descriptor process → Operation
    limited : Timed → Operation

  -- `apply_time_constaint_or_strand`, and the start of the request.
  unfoldable pub start_with : TimeConstraint → Native → Operation
  unfolding start_timed
  start_with TimeConstraint.none n = unlimited (start pq b bad_descriptor process n)
  start_with (at t) n = limited (start_timed n)
  start_with (within t) n = limited (start_timed n)

  -- `async_request_op::operator ()`
  unfoldable pub on_connection : TimeConstraint → Option ErrorCode × Native → Operation
  unfolding start_with
  on_connection t (some ec, n) = refused ec n
  on_connection t (none, n) = start_with t n

  -- The calls of the handler that the user gave.
  abbrev pub user_calls : Operation → List (Option ErrorCode)
  user_calls (refused ec n) = some ec ∷ []
  user_calls (unlimited r) = r.calls
  user_calls (limited s) = map (λ c. c.0) s.context.calls

  -- A wait of the request ends, with the calls that follow; or the timer's does. The timer ends once.
  pub data TimedStep : Timed → Timed → Type 0 where
    io :
        (s : Timed) (r : Request pq b bad_descriptor process) (new : List (Option ErrorCode))
        → Step pq b bad_descriptor process s.request r
        → r.calls ≡ (let q = s.request in q.calls) ++ new
        → TimedStep s (record s { request = r; context = deliver new r.native s.context })
    timed :
        (s : Timed)
        → s.timing ≡ true
        → TimedStep s (record s { context = on_timer b s.context; timing = false })

  pub data OperationStep : Operation → Operation → Type 0 where
    in_unlimited :
        (r r' : Request pq b bad_descriptor process)
        → Step pq b bad_descriptor process r r'
        → OperationStep (unlimited r) (unlimited r')
    in_limited : (s s' : Timed) → TimedStep s s' → OperationStep (limited s) (limited s')

  -- `async_request` and `async_execute`: the clock is read for either use of `deadline`.
  unfoldable pub async_request :
      (Native → Native) → Provider Native → TimeConstraint → ℕ → ℕ → Operation
  unfolding on_connection deadline async_get_connection
  async_request clear p t now later =
      on_connection (deadline t later) (async_get_connection clear p (deadline t now) now)

  -- What a request reaches.
  pub data Reaches (clear : Native → Native) (p : Provider Native) (t : TimeConstraint)
      (now later : ℕ) : Operation → Type 0 where
    begun : Reaches clear p t now later (async_request clear p t now later)
    then_step :
        (o o' : Operation)
        → Reaches clear p t now later o
        → OperationStep o o'
        → Reaches clear p t now later o'
