-- ===== src/Connect/Timed/Once.antt =====
-- How often, and with what, the handler of `async_connect` is called.
use ozo_pg.Base.{
  ℕ, ◌≤◌, ◌≡◌, refl, sym, ap, subst, ◌⊎◌, inl, inr, List, [], ◌∷◌, ◌++◌, Option, Bool, true, false,
  length, drop,
}
use ozo_pg.Error.{ErrorCode, Boost}
use ozo_pg.Deadline.{TimeConstraint, at, within}
use ozo_pg.Deadline.Handler.{initial, deliver}
use ozo_pg.Deadline.Handler.Around.{
  ContextAt, deliver-ContextAt, timer-ContextAt, has_called, has_ended_at, AreExpected,
  own-AreExpected, context-AreExpected,
}
use ozo_pg.Connection.{Libpq, Connection}
use ozo_pg.Connect.OidMap.{OidMapT}
use ozo_pg.Connect.Timed.{
  Connecting, start_connecting, Event, waited, received, timer_ended, advance, Limited, moved,
  timer_at, advance_limited, Operation, unlimited, limited, with_timer, start_with, on_event,
  run_events, async_connect, user_calls, connecting_of,
}
use ozo_pg.Connect.Timed.States.{
  IsConnecting, start_connecting-IsConnecting, advance-IsConnecting, advance-calls,
  IsConnecting-few,
}

kept : (xs : List (Option ErrorCode)) → xs ++ drop (length xs) xs ≡ xs
kept [] = refl
kept (x ∷ xs) = ap (λ ys. x ∷ ys) (kept xs)

extended :
    (old new : List (Option ErrorCode))
    → (new ≡ old) ⊎ (old ≡ [])
    → old ++ drop (length old) new ≡ new
extended old new (inl e) = subst (λ xs. old ++ drop (length old) xs ≡ xs) (sym e) (kept old)
extended old new (inr e) = ap (λ xs. xs ++ drop (length xs) new) e

module _ (b : Boost) where
  abbrev IsLimited : Limited → Type 0
  IsLimited l =
      IsConnecting l.connecting × ContextAt b l.timing (let s = l.connecting in s.calls) l.context

  abbrev IsRun : Operation → Type 0
  IsRun (unlimited s) = IsConnecting s
  IsRun (limited l) = IsLimited l

  moved-IsLimited :
      (s : Connecting) (l : Limited)
      → IsConnecting s
      → IsLimited l
      → (s.calls ≡ (let old = l.connecting in old.calls))
        ⊎ ((let old = l.connecting in old.calls) ≡ [])
      → IsLimited (moved s l)
  unfolding moved
  moved-IsLimited s l c (connecting, held) e =
      let old = l.connecting in
      let op = s.op in
      let new = drop (length old.calls) s.calls in
      (
        c,
        subst (λ cs. ContextAt b l.timing cs (deliver new op.connection l.context))
            (extended old.calls s.calls e)
            (deliver-ContextAt b l.timing old.calls new op.connection l.context held),
      )

  advance-IsLimited :
      (e : Event) (l : Limited) → IsLimited l → IsLimited (moved (advance e l.connecting) l)
  advance-IsLimited e l h =
      moved-IsLimited (advance e l.connecting) l (advance-IsConnecting e l.connecting h.0) h
        (advance-calls e l.connecting h.0)

  timer_at-IsLimited :
      (timing : Bool) (l : Limited)
      → IsConnecting l.connecting
      → l.timing ≡ timing
      → ContextAt b timing (let s = l.connecting in s.calls) l.context
      → IsLimited (timer_at b timing l)
  unfolding timer_at
  timer_at-IsLimited true l c e held =
      (c, timer-ContextAt b (let s = l.connecting in s.calls) l.context held)
  timer_at-IsLimited false l c e held =
      (c, subst (λ t. ContextAt b t (let s = l.connecting in s.calls) l.context) (sym e) held)

  on_event-IsRun : (e : Event) (o : Operation) → IsRun o → IsRun (on_event b e o)
  unfolding on_event advance_limited
  on_event-IsRun e (unlimited s) h = advance-IsConnecting e s h
  on_event-IsRun (waited e) (limited l) h = advance-IsLimited (waited e) l h
  on_event-IsRun (received ec res) (limited l) h = advance-IsLimited (received ec res) l h
  on_event-IsRun timer_ended (limited l) (c, held) = timer_at-IsLimited l.timing l c refl held

  run_events-IsRun : (es : List Event) (o : Operation) → IsRun o → IsRun (run_events b es o)
  unfolding run_events
  run_events-IsRun [] o h = h
  run_events-IsRun (e ∷ es) o h = run_events-IsRun es (on_event b e o) (on_event-IsRun e o h)

  start_connecting-IsLimited :
      (pq : Libpq) (handle : Option ℕ) (c : Connection) (oids : OidMapT)
      → IsLimited (moved (start_connecting pq handle c oids) (with_timer c oids))
  unfolding moved
  start_connecting-IsLimited pq handle c oids =
      let s = start_connecting pq handle c oids in
      let op = s.op in
      (
        start_connecting-IsConnecting pq handle c oids,
        deliver-ContextAt {R = Connection} b true [] s.calls op.connection
            (initial {R = Connection}) refl,
      )

  start_with-IsRun :
      (t : TimeConstraint) (pq : Libpq) (handle : Option ℕ) (c : Connection) (oids : OidMapT)
      → IsRun (start_with t pq handle c oids)
  unfolding start_with
  start_with-IsRun TimeConstraint.none pq handle c oids =
      start_connecting-IsConnecting pq handle c oids
  start_with-IsRun (at t) pq handle c oids = start_connecting-IsLimited pq handle c oids
  start_with-IsRun (within t) pq handle c oids = start_connecting-IsLimited pq handle c oids

  -- What the operation calls the handler that it has, be it the user's or the deadline handler.
  abbrev pub own_calls : Operation → List (Option ErrorCode)
  own_calls o = let s = connecting_of o in s.calls

  -- The handler has been called, and the timer, if there is one, has ended.
  abbrev pub has_ended : Operation → Bool
  has_ended (unlimited s) = has_called s.calls
  has_ended (limited l) = has_ended_at l.timing (let s = l.connecting in s.calls)

  run-AreExpected :
      (o : Operation)
      → IsRun o
      → (length (own_calls o) ≤ 1) × AreExpected b (has_ended o) (user_calls o) (own_calls o)
  run-AreExpected (unlimited s) h =
      let few = IsConnecting-few s h in (few, own-AreExpected b s.calls few)
  run-AreExpected (limited l) (connecting, held) =
      let s = l.connecting in
      let few = IsConnecting-few s connecting in
      (few, context-AreExpected b l.timing s.calls l.context few held)

  pub async_connect-calls :
      (t : TimeConstraint) (pq : Libpq) (handle : Option ℕ) (c : Connection) (oids : OidMapT)
      (es : List Event)
      → let o = async_connect b t pq handle c oids es in
        (length (own_calls o) ≤ 1) × AreExpected b (has_ended o) (user_calls o) (own_calls o)
  unfolding async_connect
  async_connect-calls t pq handle c oids es =
      let start = start_with t pq handle c oids in
      run-AreExpected (run_events b es start)
        (run_events-IsRun es start (start_with-IsRun t pq handle c oids))
