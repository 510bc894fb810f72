-- ===== src/Failover.antt =====
-- failover/strategy.h: an operation that is tried again. An operation's own work is not modelled; what
-- each start of it comes to is a list of outcomes. A run is the list of the events that it causes.
pub mod Closing
pub mod Completion
pub mod Rounds
pub mod Retry
pub mod RoleBased
mod Examples
use ozo_pg.Base.{ℕ, ◌+◌, List, [], ◌∷◌, ◌++◌, Option, none, some, Bool, true, if◌then◌else◌}
use ozo_pg.Deadline.{TimeConstraint}
use ozo_pg.Error.{ErrorCode}

-- `basic_context`: the provider and the other arguments, of which no more than the identity matters.
pub record Context : Type 0 where
  pub provider : ℕ
  pub time_constraint : TimeConstraint
  pub args : ℕ

-- A connection, or one in null recursive state.
abbrev pub Connection : Type 0
Connection = Option ℕ

-- An operation is started with a context; the handler of the strategy's event is called; a connection
-- is closed; the handler of the whole operation is called.
pub data Event : Type 0 where
  started : Context → Event
  notified : ErrorCode → Connection → Event
  closed : ℕ → Event
  handled : Option ErrorCode → Connection → Event

-- What a start of the operation comes to, and when.
pub record Outcome : Type 0 where
  pub failure : Option ErrorCode
  pub conn : Connection
  pub time : ℕ

-- `defer_close_connection` of connection.h, when the guard goes out of scope: `close` is whether it holds
-- a pointer.
unfoldable pub close_deferred : Bool → Connection → List Event
close_deferred close none = []
close_deferred close (some c) = if close then closed c ∷ [] else []

-- `get_option(options(), op::close_connection, true)`
abbrev pub or_true : Option Bool → Bool
or_true none = true
or_true (some b) = b

-- The interface of a try: its context at a time, and `initiate_next_try`, which starts the next try if
-- there is one.
pub record FailoverTry : Type 1 where
  pub Try : Type 0
  pub get_context : Try → ℕ → Context
  pub initiate_next_try : Try → ℕ → ErrorCode → Connection → List Event × Option Try

module _ (s : FailoverTry) where
  open s use {Try, get_context, initiate_next_try}

  -- The part of `continuation::operator ()` after the next try has been asked for.
  abbrev pub or_give_up : ErrorCode → Connection → List Event × Option Try → List Event × Option Try
  or_give_up ec c (events, some t) = (events, some t)
  or_give_up ec c (events, none) = (events ++ (handled (some ec) c ∷ []), none)

  -- `continuation::operator ()`.
  unfoldable pub continuation : Try → Option ErrorCode → Connection → ℕ → List Event × Option Try
  continuation t none c now = (handled none c ∷ [], none)
  continuation t (some ec) c now = or_give_up ec c (initiate_next_try t now ec c)

  -- What follows a start of the operation, as far as its outcomes are known.
  unfoldable pub run : Try → List Outcome → List Event
  unfolding continuation
  run t [] = []
  run t (o ∷ os) =
      let (events, next) = continuation t o.failure o.conn o.time in
      events ++ elim next [ none ↦ [] | some t' ↦ run t' os ]

  -- `operation_initiator::operator ()`, from the first try on.
  unfoldable pub perform : Try → ℕ → List Outcome → List Event
  unfolding run
  perform t now os = started (get_context t now) ∷ run t os

abbrev pub count_started : List Event → ℕ
count_started [] = 0
count_started (started c ∷ es) = 1 + count_started es
count_started (notified ec c ∷ es) = count_started es
count_started (closed c ∷ es) = count_started es
count_started (handled ec c ∷ es) = count_started es

abbrev pub count_handled : List Event → ℕ
count_handled [] = 0
count_handled (started c ∷ es) = count_handled es
count_handled (notified ec c ∷ es) = count_handled es
count_handled (closed c ∷ es) = count_handled es
count_handled (handled ec c ∷ es) = 1 + count_handled es

abbrev pub count_closed : List Event → ℕ
count_closed [] = 0
count_closed (started c ∷ es) = count_closed es
count_closed (notified ec c ∷ es) = count_closed es
count_closed (closed c ∷ es) = 1 + count_closed es
count_closed (handled ec c ∷ es) = count_closed es
