-- ===== src/Request/Timed/Once.antt =====
-- How often the handler of an operation with a time constraint is called.
use ozo_pg.Base.{
  ℕ, ◌≤◌, refl, sym, inl, List, [], ◌∷◌, Option, none, some, Bool, true, length, subst,
}
use ozo_pg.Error.{ErrorCode, Boost}
use ozo_pg.Deadline.{TimeConstraint, at, within, deadline}
use ozo_pg.Deadline.Handler.{initial, deliver}
use ozo_pg.Deadline.Handler.Around.{
  ContextAt, deliver-ContextAt, timer-ContextAt, has_called, has_ended_at, AreExpected,
  own-AreExpected, context-AreExpected,
}
use ozo_pg.Provider.{Provider}
use ozo_pg.Request.{Libpq, start, Reachable, started, after}
use ozo_pg.Request.Timed.{
  Timed, start_timed, Operation, refused, unlimited, limited, start_with, on_connection, user_calls,
  TimedStep, io, timed, OperationStep, in_unlimited, in_limited, Reaches, begun, then_step,
  async_request,
}

module _ (pq : Libpq) (b : Boost) (bad_descriptor : ErrorCode) (process : pq.Res → Bool) where
  open pq use {Native}

  abbrev IsTimed : Timed pq b bad_descriptor process → Type 0
  IsTimed s =
      Reachable pq b bad_descriptor process s.request
      × ContextAt b s.timing (let q = s.request in q.calls) s.context

  abbrev IsRun : Operation pq b bad_descriptor process → Type 0
  IsRun (refused ec n) = Unit
  IsRun (unlimited r) = Reachable pq b bad_descriptor process r
  IsRun (limited s) = IsTimed s

  start_timed-IsTimed : (n : Native) → IsTimed (start_timed pq b bad_descriptor process n)
  unfolding start_timed
  start_timed-IsTimed n =
      let r = start pq b bad_descriptor process n in
      (
        started n,
        deliver-ContextAt {R = Native} b true [] r.calls r.native (initial {R = Native}) refl,
      )

  on_connection-IsRun :
      (t : TimeConstraint) (c : Option ErrorCode × Native)
      → IsRun (on_connection pq b bad_descriptor process t c)
  unfolding on_connection start_with
  on_connection-IsRun t (some ec, n) = tt
  on_connection-IsRun TimeConstraint.none (none, n) = started n
  on_connection-IsRun (at d) (none, n) = start_timed-IsTimed n
  on_connection-IsRun (within d) (none, n) = start_timed-IsTimed n

  TimedStep-IsTimed :
      {s s' : Timed pq b bad_descriptor process}
      → TimedStep pq b bad_descriptor process s s'
      → IsTimed s
      → IsTimed s'
  TimedStep-IsTimed (io s r new step e) (reached, held) = (
    after s.request r reached step,
    subst (λ cs. ContextAt b s.timing cs (deliver new r.native s.context)) (sym e)
        (deliver-ContextAt b s.timing (let q = s.request in q.calls) new r.native s.context held),
  )
  TimedStep-IsTimed (timed s e) (reached, held) =
      (reached, timer-ContextAt b (let q = s.request in q.calls) s.context (rw e at held))

  OperationStep-IsRun :
      {o o' : Operation pq b bad_descriptor process}
      → OperationStep pq b bad_descriptor process o o'
      → IsRun o
      → IsRun o'
  OperationStep-IsRun (in_unlimited r r' step) h = after r r' h step
  OperationStep-IsRun (in_limited s s' step) h = TimedStep-IsTimed step h

  Reaches-IsRun :
      (clear : Native → Native) (p : Provider Native) (t : TimeConstraint) (now later : ℕ)
      {o : Operation pq b bad_descriptor process}
      → Reaches pq b bad_descriptor process clear p t now later o
      → IsRun o
  unfolding async_request
  Reaches-IsRun clear p t now later begun = on_connection-IsRun (deadline t later) _
  Reaches-IsRun clear p t now later (then_step o o' r step) =
      OperationStep-IsRun step (Reaches-IsRun clear p t now later r)

  -- What the request calls the handler that it has, be it the user's or the deadline handler.
  abbrev pub request_calls : Operation pq b bad_descriptor process → List (Option ErrorCode)
  request_calls (refused ec n) = some ec ∷ []
  request_calls (unlimited r) = r.calls
  request_calls (limited s) = let q = s.request in q.calls

  -- The request has called its handler, and its timer, if it has one, has ended.
  abbrev pub has_ended : Operation pq b bad_descriptor process → Bool
  has_ended (refused ec n) = true
  has_ended (unlimited r) = has_called r.calls
  has_ended (limited s) = has_ended_at s.timing (let q = s.request in q.calls)

  run-AreExpected :
      (o : Operation pq b bad_descriptor process)
      → IsRun o
      → length (request_calls o) ≤ 1
      → AreExpected b (has_ended o) (user_calls pq b bad_descriptor process o) (request_calls o)
  run-AreExpected (refused ec n) h few = (refl, inl refl)
  run-AreExpected (unlimited r) h few = own-AreExpected b r.calls few
  run-AreExpected (limited s) (reached, held) few =
      context-AreExpected b s.timing (let q = s.request in q.calls) s.context few held

  -- For a request of any provider and with any time constraint, as long as it has called its handler at most
  -- once: when it has, and the timer, if there is a time constraint, has ended, the handler of the user has
  -- been called once, as the request calls it or with `timed_out`; before, the user's handler has not been
  -- called.
  pub Reaches-calls :
      (clear : Native → Native) (p : Provider Native) (t : TimeConstraint) (now later : ℕ)
      (o : Operation pq b bad_descriptor process)
      → Reaches pq b bad_descriptor process clear p t now later o
      → length (request_calls o) ≤ 1
      → AreExpected b (has_ended o) (user_calls pq b bad_descriptor process o) (request_calls o)
  Reaches-calls clear p t now later o r few =
      run-AreExpected o (Reaches-IsRun clear p t now later r) few
