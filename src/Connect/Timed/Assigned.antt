-- ===== src/Connect/Timed/Assigned.antt =====
-- The oids of the types of a connection that `async_connect` hands out.
use ozo_pg.Base.{
  ◌⊎◌, ℕ, ◌≡◌, refl, sym, ap, ◌∙◌, subst, inl, inr, List, [], ◌∷◌, ◌++◌, Option, none, some, Bool,
  true, false,
}
use ozo_pg.Error.{ErrorCode, Boost, timed_out}
use ozo_pg.Deadline.{TimeConstraint}
use ozo_pg.Deadline.Handler.Around.{AreExpected}
use ozo_pg.Connection.{Libpq, Connection}
use ozo_pg.Connect.{ConnectOp, on_wait, wait_ends_at}
use ozo_pg.Connect.OidMap.{OidMapT, on_oids}
use ozo_pg.Connect.OidMap.Assigned.{AreAssigned, AreDistinct, on_oids-AreAssigned, on_oids-keys}
use ozo_pg.Connect.Timed.{
  Connecting, answered, connected, all_connected, on_op, at_start, start_connecting, on_waited,
  with_oids, on_received, Event, waited, received, timer_ended, advance, start_with, run_events,
  async_connect, user_calls, connecting_of,
}
use ozo_pg.Connect.Timed.States.{
  OpState, on_op_lem, on_wait-OpState, perform-OpState, not_waiting, not_asking, IsConnecting,
  start_connecting-IsConnecting, advance-IsConnecting,
}
use mathlib.Core.List.{append_assoc}
use ozo_pg.Io.Types.{OidMap}
use ozo_pg.Connect.Timed.Kept.{start_with-kept, run_events-last, all_events}
use ozo_pg.Connect.Timed.Once.{own_calls, has_ended, async_connect-calls}

-- `Q` is what a success says of the map.
module _ (keys : List ℕ) (distinct : AreDistinct keys) (Q : OidMap → Type 0)
    (no_keys : (oids : OidMap) → keys ≡ [] → Q oids) where
  abbrev pub HasOids : Connecting → Type 0
  HasOids s = let m = s.oids in (m.keys ≡ keys) × (s.calls ≡ none ∷ [] → Q m.impl)

  connected-HasOids :
      (ks : List ℕ) (ec : Option ErrorCode) (s : Connecting)
      → (let m = s.oids in m.keys ≡ keys)
      → ks ≡ keys
      → s.calls ≡ []
      → HasOids (connected ks ec s)
  unfolding connected answered
  connected-HasOids [] ec s e same h = let m = s.oids in (e, λ success. no_keys m.impl (sym same))
  connected-HasOids (k ∷ ks) (some ec) s e same h = (
    e,
    λ success. absurd (
        let g : some ec ∷ [] ≡ none ∷ [] = sym (ap (λ cs. cs ++ (some ec ∷ [])) h) ∙ success in cc),
  )
  connected-HasOids (k ∷ ks) none s e same h =
      (e, λ success. absurd (let g : [] ≡ none ∷ [] = sym h ∙ success in cc))

  on_op-HasOids :
      (op : ConnectOp) (s : Connecting)
      → OpState op
      → (let old = s.op in old.calls ≡ [])
      → (let m = s.oids in m.keys ≡ keys)
      → s.calls ≡ []
      → HasOids (on_op op s)
  unfolding all_connected
  on_op-HasOids op s (inl (w, waits, none_yet)) old e h =
      subst HasOids (sym (on_op_lem op s [] old none_yet))
        (e, λ success. absurd (let g : [] ≡ none ∷ [] = sym h ∙ success in cc))
  on_op-HasOids op s (inr (ec, waits, called)) old e h =
      subst HasOids (sym (on_op_lem op s (ec ∷ []) old called))
        (connected-HasOids (let m = s.oids in m.keys) ec (record s { op = op }) e e h)

  with_oids-HasOids :
      (ec : Option ErrorCode) (res : List ℕ) (s : Connecting)
      → ((oids : OidMap) → ec ≡ none → AreAssigned oids keys res → Q oids)
      → (let m = s.oids in m.keys ≡ keys)
      → s.calls ≡ []
      → HasOids (with_oids (on_oids ec s.oids res) s)
  unfolding with_oids answered
  with_oids-HasOids ec res s arrived e h =
      let m = s.oids in
      let answer = (on_oids ec m res).2 in
      let m' = (on_oids ec m res).0 in
      (
        on_oids-keys ec m res ∙ e,
        λ success.
            let g : answer ∷ [] ≡ none ∷ [] = sym (ap (λ cs. cs ++ (answer ∷ [])) h) ∙ success in
            let succeeded : answer ≡ none = cc in
            let (no_error, assigned) =
              on_oids-AreAssigned ec m res (subst AreDistinct (sym e) distinct) succeeded in
            arrived m'.impl no_error (subst (λ l. AreAssigned m'.impl l res) e assigned),
      )

  pub advance-HasOids :
      (e : Event) (s : Connecting)
      → ((ec : Option ErrorCode) (res : List ℕ) (oids : OidMap)
          → e ≡ received ec res
          → s.asking ≡ true
          → ec ≡ none
          → AreAssigned oids keys res
          → Q oids)
      → IsConnecting s
      → HasOids s
      → HasOids (advance e s)
  unfolding advance on_waited wait_ends_at on_received
  advance-HasOids (waited (ec, p)) s arrived (inl (w, waits, none_yet, a, h)) oids =
      let op = s.op in
      subst (λ x. HasOids (on_op (wait_ends_at x (ec, p) op) s)) (sym waits)
        (on_op-HasOids (on_wait ec p op) s (on_wait-OpState ec p op none_yet) none_yet oids.0 h)
  advance-HasOids (waited e) s arrived (inr (inl (waits, a, h))) oids =
      subst HasOids (sym (not_waiting e s waits)) oids
  advance-HasOids (waited e) s arrived (inr (inr (ec, waits, a, h))) oids =
      subst HasOids (sym (not_waiting e s waits)) oids
  advance-HasOids (received ec res) s arrived (inl (w, waits, none_yet, a, h)) oids =
      subst HasOids (sym (not_asking ec res s a)) oids
  advance-HasOids (received ec res) s arrived (inr (inl (waits, a, h))) oids =
      subst (λ x. HasOids (on_received x ec res s)) (sym a)
        (with_oids-HasOids ec res s (λ impl no_error. arrived ec res impl refl a no_error) oids.0 h)
  advance-HasOids (received ec res) s arrived (inr (inr (ec', waits, a, h))) oids =
      subst HasOids (sym (not_asking ec res s a)) oids
  advance-HasOids timer_ended s arrived h oids = oids

  pub start_connecting-HasOids :
      (pq : Libpq) (handle : Option ℕ) (c : Connection) (oids : OidMapT)
      → oids.keys ≡ keys
      → HasOids (start_connecting pq handle c oids)
  unfolding start_connecting
  start_connecting-HasOids pq handle c oids e =
      on_op-HasOids _ (at_start c oids)
        (perform-OpState pq handle (record { connection = c; waiting = none; calls = [] }) refl)
        refl e refl

-- A success is the operation's own.
pub success-own :
    (b : Boost) (ended : Bool) (user own : List (Option ErrorCode))
    → AreExpected b ended user own
    → user ≡ none ∷ []
    → own ≡ none ∷ []
success-own b true user own (once, inl e) h = sym e ∙ h
success-own b true user own (once, inr e) h =
    absurd (let g : some (b.asio timed_out) ∷ [] ≡ none ∷ [] = sym e ∙ h in cc)
success-own b false user own e h = absurd (let g : [] ≡ none ∷ [] = sym e ∙ h in cc)

module _ (b : Boost) (t : TimeConstraint) (pq : Libpq) (handle : Option ℕ) (c : Connection)
    (oids : OidMapT) where
  abbrev pub state_after : List Event → Connecting
  state_after es = connecting_of (async_connect b t pq handle c oids es)

  -- No types are registered; or the events have one at which the request for the oids, being pending, ended
  -- without an error and with results that are as many as the types, none of them null, and each type, in the
  -- order of the keys, has the oid at its place among these results.
  abbrev pub HaveArrived : List Event → OidMap → Type 0
  HaveArrived es impl =
      (oids.keys ≡ [])
      ⊎ ((before : List Event) × (after : List Event) × (res : List ℕ) × (es
            ≡ before ++ (received none res ∷ after))
          × (let s = state_after before in s.asking ≡ true)
          × AreAssigned impl oids.keys res)

  more_events :
      (es : List Event) (e : Event) (impl : OidMap)
      → HaveArrived es impl
      → HaveArrived (es ++ (e ∷ [])) impl
  more_events es e impl (inl h) = inl h
  more_events es e impl (inr (before, after, res, at_end, asked, assigned)) = inr (
    before,
    after ++ (e ∷ []),
    res,
    ap (λ xs. xs ++ (e ∷ [])) at_end ∙ append_assoc before (received none res ∷ after) (e ∷ []),
    asked,
    assigned,
  )

  module _ (distinct : AreDistinct oids.keys) where
    abbrev HasArrived : List Event → Connecting → Type 0
    HasArrived es s = HasOids oids.keys distinct (HaveArrived es) (λ impl e. inl e) s

    abbrev IsKept : List Event → Type 0
    IsKept es = IsConnecting (state_after es) × HasArrived es (state_after es)

    start-IsKept : IsKept []
    unfolding async_connect run_events
    start-IsKept =
        start_with-kept (λ s. IsConnecting s × HasArrived [] s) t pq handle c oids
          (
            start_connecting-IsConnecting pq handle c oids,
            start_connecting-HasOids oids.keys distinct (HaveArrived []) (λ impl e. inl e) pq handle
                c oids refl,
          )

    step-IsKept : (es : List Event) (e : Event) → IsKept es → IsKept (es ++ (e ∷ []))
    unfolding async_connect
    step-IsKept es e (h, kept) =
        let next = es ++ (e ∷ []) in
        subst (λ s. IsConnecting s × HasArrived next s)
          (sym (run_events-last b es e (start_with t pq handle c oids)))
          (
            advance-IsConnecting e (state_after es) h,
            advance-HasOids oids.keys distinct (HaveArrived next) (λ impl k. inl k) e
                (state_after es)
                (λ ec res impl is asked no_error assigned. inr (
                  es,
                  [],
                  res,
                  ap (λ x. es ++ (x ∷ [])) (is ∙ ap (λ x. received x res) no_error),
                  asked,
                  assigned,
                ))
                h
                (
                  kept.0,
                  λ success.
                      more_events es e (let s = state_after es in let m = s.oids in m.impl)
                        (kept.1 success),
                ),
          )

    -- The oids that a connection without an error has in its map have arrived by one of the events.
    pub async_connect-HaveArrived :
        (es : List Event)
        → user_calls (async_connect b t pq handle c oids es) ≡ none ∷ []
        → HaveArrived es (let s = state_after es in let m = s.oids in m.impl)
    async_connect-HaveArrived es success =
        let o = async_connect b t pq handle c oids es in
        let kept = all_events IsKept step-IsKept es start-IsKept in
        kept.1.1 (
          success-own b (has_ended b o) (user_calls o) (own_calls b o)
            (async_connect-calls b t pq handle c oids es).1 success)
