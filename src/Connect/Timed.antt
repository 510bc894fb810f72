-- ===== src/Connect/Timed.antt =====
-- impl/async_connect.h with detail/deadline.h: `async_connect` as a whole, which is the connect operation, the
-- request for the oids behind it, and the deadline handler around both if there is a time constraint.
pub mod States
pub mod Kept
pub mod Once
pub mod Assigned
pub mod Handle
pub mod Established
mod Examples
use ozo_pg.Base.{ℕ, List, [], ◌∷◌, ◌++◌, Option, none, some, Bool, true, false, map, length, drop}
use ozo_pg.Error.{ErrorCode, Boost}
use ozo_pg.Deadline.{TimeConstraint, at, within}
use ozo_pg.Deadline.Handler.{DeadlineContext, initial, on_timer, deliver}
use ozo_pg.Connection.{Libpq, Connection}
use ozo_pg.Connect.{ConnectOp, perform, WaitEnd, wait_ends_at}
use ozo_pg.Connect.OidMap.{OidMapT, OidFailure, OidEnd, on_oids}

-- The operation that makes the connection, the map of oids, whether the request for them is pending, what it
-- failed with, and the calls of the handler that comes behind.
pub record Connecting : Type 0 where
  pub op : ConnectOp
  pub oids : OidMapT
  pub asking : Bool
  pub failure : Option OidFailure
  pub calls : List (Option ErrorCode)

unfoldable pub answered : Option ErrorCode → Connecting → Connecting
answered ec s = record s { calls = s.calls ++ (ec ∷ []) }

-- `apply_oid_map_request`, on the keys of the map: the handler itself, or `request_oid_map_handler`.
unfoldable pub connected : List ℕ → Option ErrorCode → Connecting → Connecting
unfolding answered
connected [] ec s = answered ec s
connected (k ∷ ks) (some ec) s = answered (some ec) s
connected (k ∷ ks) none s = record s { asking = true }

unfoldable pub all_connected : List (Option ErrorCode) → Connecting → Connecting
unfolding connected
all_connected [] s = s
all_connected (ec ∷ ecs) s = all_connected ecs (connected (let m = s.oids in m.keys) ec s)

-- The connect operation moves on, with the calls that it makes of its handler.
unfoldable pub on_op : ConnectOp → Connecting → Connecting
unfolding all_connected
on_op op s = all_connected (drop (length (let o = s.op in o.calls)) op.calls) (record s { op = op })

abbrev pub at_start : Connection → OidMapT → Connecting
at_start c oids = record {
  op = record { connection = c; waiting = none; calls = [] };
  oids = oids;
  asking = false;
  failure = none;
  calls = [];
}

unfoldable pub start_connecting : Libpq → Option ℕ → Connection → OidMapT → Connecting
unfolding on_op perform
start_connecting pq handle c oids =
    on_op (perform pq handle (record { connection = c; waiting = none; calls = [] }))
      (at_start c oids)

unfoldable pub on_waited : WaitEnd → Connecting → Connecting
unfolding on_op wait_ends_at
on_waited e s = on_op (let o = s.op in wait_ends_at o.waiting e o) s

unfoldable pub with_oids : OidEnd → Connecting → Connecting
unfolding answered
with_oids (m, failure, ec) s =
    answered ec (record s { oids = m; asking = false; failure = failure })

-- The request for the oids has ended, with the rows that it has received.
unfoldable pub on_received : Bool → Option ErrorCode → List ℕ → Connecting → Connecting
unfolding with_oids on_oids
on_received true ec res s = with_oids (on_oids ec s.oids res) s
on_received false ec res s = s

-- What `async_connect` waits for.
pub data Event : Type 0 where
  waited : WaitEnd → Event
  received : Option ErrorCode → List ℕ → Event
  timer_ended : Event

unfoldable pub advance : Event → Connecting → Connecting
unfolding on_waited on_received
advance (waited e) s = on_waited e s
advance (received ec res) s = on_received s.asking ec res s
advance timer_ended s = s

-- With a time constraint: the context of the deadline handler, and whether its timer is pending.
pub record Limited : Type 0 where
  pub connecting : Connecting
  pub context : DeadlineContext Connection
  pub timing : Bool

unfoldable pub moved : Connecting → Limited → Limited
unfolding deliver
moved s l =
    let new = drop (length (let old = l.connecting in old.calls)) s.calls in
    let op = s.op in record l { connecting = s; context = deliver new op.connection l.context }

unfoldable pub timer_at : Boost → Bool → Limited → Limited
unfolding on_timer
timer_at b true l = record l { context = on_timer b l.context; timing = false }
timer_at b false l = l

unfoldable pub advance_limited : Boost → Event → Limited → Limited
unfolding moved advance timer_at
advance_limited b (waited e) l = moved (advance (waited e) l.connecting) l
advance_limited b (received ec res) l = moved (advance (received ec res) l.connecting) l
advance_limited b timer_ended l = timer_at b l.timing l

pub data Operation : Type 0 where
  unlimited : Connecting → Operation
  limited : Limited → Operation

abbrev pub with_timer : Connection → OidMapT → Limited
with_timer c oids = record { connecting = at_start c oids; context = initial; timing = true }

-- `apply_time_constaint`, and the start of the connect operation.
unfoldable pub start_with : TimeConstraint → Libpq → Option ℕ → Connection → OidMapT → Operation
unfolding start_connecting moved
start_with TimeConstraint.none pq handle c oids = unlimited (start_connecting pq handle c oids)
start_with (at t) pq handle c oids =
    limited (moved (start_connecting pq handle c oids) (with_timer c oids))
start_with (within t) pq handle c oids =
    limited (moved (start_connecting pq handle c oids) (with_timer c oids))

unfoldable pub on_event : Boost → Event → Operation → Operation
unfolding advance advance_limited
on_event b e (unlimited s) = unlimited (advance e s)
on_event b e (limited l) = limited (advance_limited b e l)

unfoldable pub run_events : Boost → List Event → Operation → Operation
unfolding on_event
run_events b [] o = o
run_events b (e ∷ es) o = run_events b es (on_event b e o)

unfoldable pub async_connect :
    Boost → TimeConstraint → Libpq → Option ℕ → Connection → OidMapT → List Event → Operation
unfolding start_with run_events
async_connect b t pq handle c oids es = run_events b es (start_with t pq handle c oids)

-- The calls of the handler that the user gave.
abbrev pub user_calls : Operation → List (Option ErrorCode)
user_calls (unlimited s) = s.calls
user_calls (limited l) = map (λ call. call.0) l.context.calls

abbrev pub connecting_of : Operation → Connecting
connecting_of (unlimited s) = s
connecting_of (limited l) = l.connecting
