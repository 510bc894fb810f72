-- ===== src/Connect/Timed/Kept.antt =====
-- impl/async_connect.h: what is kept by the events of a connection is kept with a time constraint as without.
use mathlib.Core.List.{append_assoc, append-nil}
use ozo_pg.Base.{ℕ, ◌≡◌, refl, sym, subst, ◌++◌, List, [], ◌∷◌, Option, Bool, true, false}
use ozo_pg.Error.{Boost}
use ozo_pg.Deadline.{TimeConstraint, at, within}
use ozo_pg.Connection.{Libpq, Connection}
use ozo_pg.Connect.OidMap.{OidMapT}
use ozo_pg.Connect.Timed.{
  Connecting, start_connecting, Event, waited, received, timer_ended, advance, Limited, moved,
  timer_at, advance_limited, Operation, unlimited, limited, start_with, on_event, run_events,
  connecting_of,
}

module _ (P : Connecting → Type 0) where
  pub start_with-kept :
      (t : TimeConstraint) (pq : Libpq) (handle : Option ℕ) (c : Connection) (oids : OidMapT)
      → P (start_connecting pq handle c oids)
      → P (connecting_of (start_with t pq handle c oids))
  unfolding start_with moved
  start_with-kept TimeConstraint.none pq handle c oids h = h
  start_with-kept (at t) pq handle c oids h = h
  start_with-kept (within t) pq handle c oids h = h

  module _ (step : (e : Event) (s : Connecting) → P s → P (advance e s)) where
    timer_at-kept :
        (b : Boost) (timing : Bool) (l : Limited)
        → P l.connecting
        → P (let l' = timer_at b timing l in l'.connecting)
    unfolding timer_at
    timer_at-kept b true l h = h
    timer_at-kept b false l h = h

    on_event-kept :
        (b : Boost) (e : Event) (o : Operation)
        → P (connecting_of o)
        → P (connecting_of (on_event b e o))
    unfolding on_event advance_limited moved
    on_event-kept b e (unlimited s) h = step e s h
    on_event-kept b (waited e) (limited l) h = step (waited e) l.connecting h
    on_event-kept b (received ec res) (limited l) h = step (received ec res) l.connecting h
    on_event-kept b timer_ended (limited l) h = timer_at-kept b l.timing l h

    pub run_events-kept :
        (b : Boost) (es : List Event) (o : Operation)
        → P (connecting_of o)
        → P (connecting_of (run_events b es o))
    unfolding run_events
    run_events-kept b [] o h = h
    run_events-kept b (e ∷ es) o h = run_events-kept b es (on_event b e o) (on_event-kept b e o h)

timer_at-connecting :
    (b : Boost) (timing : Bool) (l : Limited)
    → (let l' = timer_at b timing l in l'.connecting) ≡ l.connecting
unfolding timer_at
timer_at-connecting b true l = refl
timer_at-connecting b false l = refl

on_event-connecting :
    (b : Boost) (e : Event) (o : Operation)
    → connecting_of (on_event b e o) ≡ advance e (connecting_of o)
unfolding on_event advance_limited moved advance
on_event-connecting b e (unlimited s) = refl
on_event-connecting b (waited e) (limited l) = refl
on_event-connecting b (received ec res) (limited l) = refl
on_event-connecting b timer_ended (limited l) = timer_at-connecting b l.timing l

-- The last of the events is the last to be taken in.
pub run_events-last :
    (b : Boost) (es : List Event) (e : Event) (o : Operation)
    → connecting_of (run_events b (es ++ (e ∷ [])) o)
      ≡ advance e (connecting_of (run_events b es o))
unfolding run_events
run_events-last b [] e o = on_event-connecting b e o
run_events-last b (e' ∷ es) e o = run_events-last b es e (on_event b e' o)

-- An induction from the first events on.
module _ (P : List Event → Type 0)
    (step : (es : List Event) (e : Event) → P es → P (es ++ (e ∷ []))) where
  extended : (es more : List Event) → P es → P (es ++ more)
  extended es [] h = subst P (sym (append-nil es)) h
  extended es (e ∷ more) h =
      subst P (append_assoc es (e ∷ []) more) (extended (es ++ (e ∷ [])) more (step es e h))

  pub all_events : (es : List Event) → P [] → P es
  all_events es h = extended [] es h
