-- ===== src/Connect/Timed/Examples.antt =====
-- A connection with a deadline that asks for the oids of its types.
use ozo_pg.Base.{◌≡◌, refl, List, [], ◌∷◌, none, some}
use ozo_pg.Error.Examples.{linux}
use ozo_pg.Deadline.{within}
use ozo_pg.Base.Int.{pos}
use ozo_pg.Connection.{new_connection}
use ozo_pg.Deadline.Handler.{deliver, on_timer, on_operation, initial}
use ozo_pg.Connect.{pgres_polling_reading, pgres_polling_ok}
use ozo_pg.Connect.Examples.{well, types, types_AreDistinct}
use ozo_pg.Connect.Timed.{
  Event, waited, received, timer_ended, Operation, async_connect, user_calls, connecting_of,
}
use ozo_pg.Connect.Timed.Established.{async_connect-IsEstablished}
use ozo_pg.Connect.Timed.Handle.{IsEstablished}
use ozo_pg.Connect.Timed.Assigned.{HaveArrived}

abbrev events : List Event
events =
    waited (none, pgres_polling_reading)
    ∷ waited (none, pgres_polling_ok)
    ∷ received none (16400 ∷ 16500 ∷ [])
    ∷ timer_ended
    ∷ []

abbrev connected : Operation
connected = async_connect linux (within (pos 5)) well (some 5) new_connection types events

connected_called : user_calls connected ≡ none ∷ []
unfolding async_connect deliver on_timer on_operation initial
connected_called = refl

async_connect-IsEstablished_example :
    let s = connecting_of connected in
    let op = s.op in
    let m = s.oids in
    IsEstablished well (some 5) op.connection
    × HaveArrived linux (within (pos 5)) well (some 5) new_connection types events m.impl
async_connect-IsEstablished_example =
    async_connect-IsEstablished linux (within (pos 5)) well (some 5) new_connection types events
      types_AreDistinct connected_called
