-- ===== src/Connect/Timed/Established.antt =====
-- The connection that `async_connect` hands out.
use ozo_pg.Base.{
  ℕ, ◌≡◌, refl, sym, ap, ◌∙◌, subst, ◌⊎◌, inl, inr, List, [], ◌∷◌, ◌++◌, Option, none, some, false,
  true≢false, length, drop,
}
use ozo_pg.Error.{ErrorCode, Boost}
use ozo_pg.Deadline.{TimeConstraint}
use ozo_pg.Connection.{Libpq, Connection}
use ozo_pg.Connect.{PollingStatus, Wait, ConnectOp, on_wait, wait_ends_at}
use ozo_pg.Connect.OidMap.{OidMapT}
use ozo_pg.Connect.OidMap.Assigned.{AreDistinct}
use ozo_pg.Connect.Timed.{
  Connecting, answered, connected, all_connected, on_op, at_start, start_connecting, on_waited,
  with_oids, on_received, Event, waited, received, timer_ended, advance, start_with, run_events,
  async_connect, user_calls, connecting_of,
}
use ozo_pg.Connect.Timed.States.{
  on_op_lem, not_waiting, not_asking, IsConnecting, start_connecting-IsConnecting,
  advance-IsConnecting,
}
use ozo_pg.Connect.Timed.Kept.{start_with-kept, run_events-kept}
use ozo_pg.Connect.Timed.Once.{own_calls, has_ended, async_connect-calls}
use ozo_pg.Connect.Timed.Assigned.{success-own, HaveArrived, async_connect-HaveArrived}
use ozo_pg.Connect.Timed.Handle.{
  IsEstablished, OpEstablished, on_wait-IsEstablished, perform-OpEstablished,
}

module _ (pq : Libpq) (start : Option ℕ) where
  abbrev Established : Connecting → Type 0
  Established s =
      let op = s.op in
      IsEstablished pq start op.connection
      ⊎ ((e : ErrorCode) × (op.waiting ≡ none) × (s.asking ≡ false) × (s.calls ≡ some e ∷ []))

  on_wait-OpEstablished :
      (ec : Option ErrorCode) (p : PollingStatus) (s : Connecting) (w : Wait)
      → (let op = s.op in op.waiting ≡ some w)
      → Established s
      → OpEstablished pq start (on_wait ec p s.op)
  on_wait-OpEstablished ec p s w waits (inl c) = inl (on_wait-IsEstablished pq start ec p s.op c)
  on_wait-OpEstablished ec p s w waits (inr (e, ended, a, h)) =
      absurd (let g : some w ≡ none = sym waits ∙ ended in cc)

  connected-op :
      (ks : List ℕ) (ec : Option ErrorCode) (s : Connecting) → (connected ks ec s).op ≡ s.op
  unfolding connected answered
  connected-op [] ec s = refl
  connected-op (k ∷ ks) (some ec) s = refl
  connected-op (k ∷ ks) none s = refl

  all_connected-op :
      (ecs : List (Option ErrorCode)) (s : Connecting) → (all_connected ecs s).op ≡ s.op
  unfolding all_connected
  all_connected-op [] s = refl
  all_connected-op (ec ∷ ecs) s =
      let next = connected (let m = s.oids in m.keys) ec s in
      all_connected-op ecs next ∙ connected-op (let m = s.oids in m.keys) ec s

  on_op-IsEstablished :
      (op : ConnectOp) (s : Connecting)
      → IsEstablished pq start op.connection
      → IsEstablished pq start (let s' = on_op op s in let op' = s'.op in op'.connection)
  unfolding on_op
  on_op-IsEstablished op s h =
      subst (λ (o : ConnectOp). IsEstablished pq start o.connection)
        (sym (
          all_connected-op (drop (length (let old = s.op in old.calls)) op.calls)
            (record s { op = op })))
        h

  connected-refused :
      (ks : List ℕ) (e : ErrorCode) (s : Connecting)
      → s.calls ≡ []
      → (let s' = connected ks (some e) s in (s'.asking ≡ s.asking) × (s'.calls ≡ some e ∷ []))
  unfolding connected answered
  connected-refused [] e s h = (refl, ap (λ cs. cs ++ (some e ∷ [])) h)
  connected-refused (k ∷ ks) e s h = (refl, ap (λ cs. cs ++ (some e ∷ [])) h)

  on_op-Established :
      (op : ConnectOp) (s : Connecting)
      → OpEstablished pq start op
      → (let old = s.op in old.calls ≡ [])
      → s.asking ≡ false
      → s.calls ≡ []
      → Established (on_op op s)
  unfolding all_connected
  on_op-Established op s (inl h) old a none_yet = inl (on_op-IsEstablished op s h)
  on_op-Established op s (inr (e, waits, called)) old a none_yet =
      let keys = let m = s.oids in m.keys in
      let s' : Connecting = record s { op = op } in
      let refused = connected-refused keys e s' none_yet in
      subst Established (sym (on_op_lem op s (some e ∷ []) old called)) (
        inr (
          e,
          ap (λ (o : ConnectOp). o.waiting) (connected-op keys (some e) s') ∙ waits,
          refused.0 ∙ a,
          refused.1,
        ))

  advance-Established :
      (ev : Event) (s : Connecting) → IsConnecting s → Established s → Established (advance ev s)
  unfolding advance on_waited wait_ends_at on_received with_oids answered
  advance-Established (waited (ec, p)) s (inl (w, waits, none_yet, a, h)) c =
      let op = s.op in
      subst (λ x. Established (on_op (wait_ends_at x (ec, p) op) s)) (sym waits)
        (on_op-Established (on_wait ec p op) s (on_wait-OpEstablished ec p s w waits c) none_yet a
          h)
  advance-Established (waited e) s (inr (inl (waits, a, h))) c =
      subst Established (sym (not_waiting e s waits)) c
  advance-Established (waited e) s (inr (inr (ec, waits, a, h))) c =
      subst Established (sym (not_waiting e s waits)) c
  advance-Established (received ec res) s (inl (w, waits, none_yet, a, h)) c =
      subst Established (sym (not_asking ec res s a)) c
  advance-Established (received ec res) s (inr (inl (waits, a, h))) (inl c) =
      subst (λ x. Established (on_received x ec res s)) (sym a) (inl c)
  advance-Established (received ec res) s (inr (inl (waits, a, h))) (inr (e, w, asked, called)) =
      absurd (true≢false (sym a ∙ asked))
  advance-Established (received ec res) s (inr (inr (ec', waits, a, h))) c =
      subst Established (sym (not_asking ec res s a)) c
  advance-Established timer_ended s h c = c

  abbrev IsSound : Connecting → Type 0
  IsSound s = IsConnecting s × Established s

  advance-IsSound : (e : Event) (s : Connecting) → IsSound s → IsSound (advance e s)
  advance-IsSound e s (h, c) = (advance-IsConnecting e s h, advance-Established e s h c)

  start_connecting-IsSound :
      (c : Connection) (oids : OidMapT) → IsSound (start_connecting pq start c oids)
  unfolding start_connecting
  start_connecting-IsSound c oids = (
    start_connecting-IsConnecting pq start c oids,
    on_op-Established _ (at_start c oids)
        (perform-OpEstablished pq start start
          (record { connection = c; waiting = none; calls = [] }) refl refl)
        refl refl refl,
  )

  success-connection :
      (s : Connecting)
      → Established s
      → s.calls ≡ none ∷ []
      → (let op = s.op in IsEstablished pq start op.connection)
  success-connection s (inl c) success = c
  success-connection s (inr (e, waits, a, h)) success =
      absurd (let g : some e ∷ [] ≡ none ∷ [] = sym h ∙ success in cc)

-- Where the keys of the map of oids are distinct: if the handler of the user has been called once, and
-- without an error, then the connection has the handle that `PQconnectStart` gave, which was not bad, and
-- the socket of that handle; and no types are registered, or one of the events is the end, without an
-- error, of the request for the oids, which was pending then, with as many results as there are types, none
-- of them null, and in the map each type, in the order of the keys, has the oid at its place among these.
-- This holds whatever the time constraint and the order of the events.
pub async_connect-IsEstablished :
    (b : Boost) (t : TimeConstraint) (pq : Libpq) (handle : Option ℕ) (c : Connection)
    (oids : OidMapT) (es : List Event)
    → AreDistinct oids.keys
    → user_calls (async_connect b t pq handle c oids es) ≡ none ∷ []
    → (let s = connecting_of (async_connect b t pq handle c oids es) in
        let op = s.op in
        let m = s.oids in
        IsEstablished pq handle op.connection × HaveArrived b t pq handle c oids es m.impl)
unfolding async_connect
async_connect-IsEstablished b t pq handle c oids es distinct success =
    let start = start_with t pq handle c oids in
    let o = run_events b es start in
    let sound = run_events-kept (IsSound pq handle) (advance-IsSound pq handle) b es start (
      start_with-kept (IsSound pq handle) t pq handle c oids
        (start_connecting-IsSound pq handle c oids)) in
    let own =
      success-own b (has_ended b o) (user_calls o) (own_calls b o)
        (async_connect-calls b t pq handle c oids es).1 success in
    (
      success-connection pq handle (connecting_of o) sound.1 own,
      async_connect-HaveArrived b t pq handle c oids distinct es success,
    )
