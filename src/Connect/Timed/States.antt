-- ===== src/Connect/Timed/States.antt =====
-- impl/async_connect.h: the states of `async_connect` without its time constraint.
use ozo_pg.Base.{
  ℕ, ◌≤◌, ◌≡◌, refl, sym, ap, ◌∙◌, subst, ◌⊎◌, inl, inr, List, [], ◌∷◌, ◌++◌, Option, none, some,
  Bool, true, false, length, drop, arith,
}
use ozo_pg.Error.{ErrorCode}
use ozo_pg.Connection.{Libpq, Connection, assign_socket, connection_status_bad, assign}
use ozo_pg.Connect.{
  PollingStatus, pgres_polling_failed, pgres_polling_reading, pgres_polling_writing,
  pgres_polling_ok, pgres_polling_active, Wait, wait_read, wait_write, ConnectOp, done, drop_handle,
  on_assigned, on_status, perform, on_poll, on_wait, WaitEnd, wait_ends_at, polling_context,
}
use ozo_pg.Connect.OidMap.{OidMapT, on_oids}
use ozo_pg.Connect.Timed.{
  Connecting, answered, connected, all_connected, on_op, at_start, start_connecting, on_waited,
  with_oids, on_received, Event, waited, received, timer_ended, advance,
}

-- A connect operation waits and has called nothing, or it waits no more and has called its handler once.
abbrev pub OpState : ConnectOp → Type 0
OpState op =
    ((w : Wait) × (op.waiting ≡ some w) × (op.calls ≡ []))
    ⊎ ((ec : Option ErrorCode) × (op.waiting ≡ none) × (op.calls ≡ ec ∷ []))

done-OpState : (ec : Option ErrorCode) (op : ConnectOp) → op.calls ≡ [] → OpState (done ec op)
unfolding done
done-OpState ec op h = inr (ec, refl, ap (λ cs. cs ++ (ec ∷ [])) h)

on_poll-OpState : (p : PollingStatus) (op : ConnectOp) → op.calls ≡ [] → OpState (on_poll p op)
unfolding on_poll
on_poll-OpState pgres_polling_ok op h = done-OpState none op h
on_poll-OpState pgres_polling_writing op h = inl (wait_write, refl, h)
on_poll-OpState pgres_polling_reading op h = inl (wait_read, refl, h)
on_poll-OpState pgres_polling_failed op h = done-OpState _ op h
on_poll-OpState pgres_polling_active op h = done-OpState _ op h

pub on_wait-OpState :
    (ec : Option ErrorCode) (p : PollingStatus) (op : ConnectOp)
    → op.calls ≡ []
    → OpState (on_wait ec p op)
unfolding on_wait
on_wait-OpState (some ec) p op h =
    let c = op.connection in
    let op' : ConnectOp = record op {
      connection = record c { error_context = polling_context c.error_context };
    } in
    done-OpState (some ec) op' h
on_wait-OpState none p op h = on_poll-OpState p op h

on_assigned-OpState :
    (socket : Option ℕ) (handle : ℕ) (c : Connection) (op : ConnectOp)
    → op.calls ≡ []
    → OpState (on_assigned handle (assign_socket socket handle c) op)
unfolding on_assigned assign_socket drop_handle
on_assigned-OpState none handle c op h = done-OpState _ (record op { connection = c }) h
on_assigned-OpState (some fd) handle c op h = inl (wait_write, refl, h)

on_status-OpState :
    (pq : Libpq) (handle : ℕ) (bad : Bool) (op : ConnectOp)
    → op.calls ≡ []
    → OpState (on_status pq handle bad op)
unfolding on_status assign drop_handle
on_status-OpState pq handle true op h = done-OpState _ op h
on_status-OpState pq handle false op h =
    on_assigned-OpState (pq.socket handle) handle op.connection op h

pub perform-OpState :
    (pq : Libpq) (handle : Option ℕ) (op : ConnectOp)
    → op.calls ≡ []
    → OpState (perform pq handle op)
unfolding perform
perform-OpState pq none op h = done-OpState _ op h
perform-OpState pq (some handle) op h =
    on_status-OpState pq handle (connection_status_bad pq (some handle)) op h

-- The connection is being made, the oids are being asked for, or the handler behind has been called.
abbrev pub IsConnecting : Connecting → Type 0
IsConnecting s =
    let op = s.op in
    ((w : Wait) × (op.waiting ≡ some w) × (op.calls ≡ []) × (s.asking ≡ false) × (s.calls ≡ []))
    ⊎ ((op.waiting ≡ none) × (s.asking ≡ true) × (s.calls ≡ []))
    ⊎ ((ec : Option ErrorCode) × (op.waiting ≡ none) × (s.asking ≡ false) × (s.calls ≡ ec ∷ []))

connected-IsConnecting :
    (ks : List ℕ) (ec : Option ErrorCode) (s : Connecting)
    → (let op = s.op in op.waiting ≡ none)
    → s.asking ≡ false
    → s.calls ≡ []
    → IsConnecting (connected ks ec s)
unfolding connected answered
connected-IsConnecting [] ec s w a h = inr (inr (ec, w, a, ap (λ cs. cs ++ (ec ∷ [])) h))
connected-IsConnecting (k ∷ ks) (some ec) s w a h =
    inr (inr (some ec, w, a, ap (λ cs. cs ++ (some ec ∷ [])) h))
connected-IsConnecting (k ∷ ks) none s w a h = inr (inl (w, refl, h))

pub on_op_lem :
    (op : ConnectOp) (s : Connecting) (cs : List (Option ErrorCode))
    → (let old = s.op in old.calls ≡ [])
    → op.calls ≡ cs
    → on_op op s ≡ all_connected cs (record s { op = op })
unfolding on_op
on_op_lem op s cs old called =
    ap (λ xs. all_connected (drop (length xs) op.calls) (record s { op = op })) old
    ∙ ap (λ xs. all_connected xs (record s { op = op })) called

on_op-IsConnecting :
    (op : ConnectOp) (s : Connecting)
    → OpState op
    → (let old = s.op in old.calls ≡ [])
    → s.asking ≡ false
    → s.calls ≡ []
    → IsConnecting (on_op op s)
unfolding all_connected
on_op-IsConnecting op s (inl (w, waits, none_yet)) old a h =
    subst IsConnecting (sym (on_op_lem op s [] old none_yet)) (inl (w, waits, none_yet, a, h))
on_op-IsConnecting op s (inr (ec, waits, called)) old a h =
    subst IsConnecting (sym (on_op_lem op s (ec ∷ []) old called))
      (connected-IsConnecting (let m = s.oids in m.keys) ec (record s { op = op }) waits a h)

pub start_connecting-IsConnecting :
    (pq : Libpq) (handle : Option ℕ) (c : Connection) (oids : OidMapT)
    → IsConnecting (start_connecting pq handle c oids)
unfolding start_connecting
start_connecting-IsConnecting pq handle c oids =
    on_op-IsConnecting _ (at_start c oids)
      (perform-OpState pq handle (record { connection = c; waiting = none; calls = [] }) refl) refl
      refl refl

drop-all : (xs : List (Option ErrorCode)) → drop (length xs) xs ≡ []
drop-all [] = refl
drop-all (x ∷ xs) = drop-all xs

-- A wait that is not pending does not end.
pub not_waiting :
    (e : WaitEnd) (s : Connecting) → (let op = s.op in op.waiting ≡ none) → on_waited e s ≡ s
unfolding on_waited wait_ends_at on_op all_connected
not_waiting e s h =
    let op = s.op in
    ap (λ w. on_op (wait_ends_at w e op) s) h ∙ ap (λ cs. all_connected cs s) (drop-all op.calls)

pub not_asking :
    (ec : Option ErrorCode) (res : List ℕ) (s : Connecting)
    → s.asking ≡ false
    → on_received s.asking ec res s ≡ s
unfolding on_received
not_asking ec res s h = ap (λ a. on_received a ec res s) h

pub advance-IsConnecting :
    (e : Event) (s : Connecting) → IsConnecting s → IsConnecting (advance e s)
unfolding advance on_waited wait_ends_at on_received with_oids answered
advance-IsConnecting (waited (ec, p)) s (inl (w, waits, none_yet, a, h)) =
    let op = s.op in
    subst (λ x. IsConnecting (on_op (wait_ends_at x (ec, p) op) s)) (sym waits)
      (on_op-IsConnecting (on_wait ec p op) s (on_wait-OpState ec p op none_yet) none_yet a h)
advance-IsConnecting (waited e) s (inr (inl (waits, a, h))) =
    subst IsConnecting (sym (not_waiting e s waits)) (inr (inl (waits, a, h)))
advance-IsConnecting (waited e) s (inr (inr (ec, waits, a, h))) =
    subst IsConnecting (sym (not_waiting e s waits)) (inr (inr (ec, waits, a, h)))
advance-IsConnecting (received ec res) s (inl (w, waits, none_yet, a, h)) =
    subst IsConnecting (sym (not_asking ec res s a)) (inl (w, waits, none_yet, a, h))
advance-IsConnecting (received ec res) s (inr (inl (waits, a, h))) =
    subst (λ x. IsConnecting (on_received x ec res s)) (sym a)
      (let answer = (on_oids ec s.oids res).2 in
        inr (inr (answer, waits, refl, ap (λ cs. cs ++ (answer ∷ [])) h)))
advance-IsConnecting (received ec res) s (inr (inr (ec', waits, a, h))) =
    subst IsConnecting (sym (not_asking ec res s a)) (inr (inr (ec', waits, a, h)))
advance-IsConnecting timer_ended s h = h

pub advance-calls :
    (e : Event) (s : Connecting) → IsConnecting s → ((advance e s).calls ≡ s.calls) ⊎ (s.calls ≡ [])
unfolding advance
advance-calls e s (inl (w, waits, none_yet, a, h)) = inr h
advance-calls e s (inr (inl (waits, a, h))) = inr h
advance-calls (waited e) s (inr (inr (ec, waits, a, h))) =
    inl (ap (λ (x : Connecting). x.calls) (not_waiting e s waits))
advance-calls (received ec res) s (inr (inr (ec', waits, a, h))) =
    inl (ap (λ (x : Connecting). x.calls) (not_asking ec res s a))
advance-calls timer_ended s (inr (inr (ec, waits, a, h))) = inl refl

pub IsConnecting-few : (s : Connecting) → IsConnecting s → length s.calls ≤ 1
IsConnecting-few s (inl (w, waits, none_yet, a, h)) = rw h (omega arith)
IsConnecting-few s (inr (inl (waits, a, h))) = rw h (omega arith)
IsConnecting-few s (inr (inr (ec, waits, a, h))) = rw h (omega arith)
