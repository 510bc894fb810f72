-- ===== src/Request/Timed/Examples.antt =====
-- A request that is answered at once, whose timer ends behind it.
use ozo_pg.Base.{ℕ, ◌≤◌, ◌≡◌, refl, [], ◌∷◌, none, true, false, length, arith}
use ozo_pg.Error.Examples.{linux}
use ozo_pg.Deadline.{within, deadline}
use ozo_pg.Base.Int.{pos}
use ozo_pg.Provider.{connection, async_get_connection}
use ozo_pg.Deadline.Handler.{deliver, on_timer, on_operation, initial}
use ozo_pg.Request.{read_rest, drain}
use ozo_pg.Request.Examples.{pq, bad_descriptor, process}
use ozo_pg.Request.Timed.{
  Timed, start_timed, limited, start_with, on_connection, user_calls, timed, in_limited, Reaches,
  then_step, async_request,
}
use ozo_pg.Deadline.Handler.Around.{AreExpected}
use ozo_pg.Request.Timed.Once.{request_calls, has_ended, Reaches-calls}

abbrev keep : ℕ × ℕ → ℕ × ℕ
keep n = n

abbrev begun : Timed pq linux bad_descriptor process
begun = start_timed pq linux bad_descriptor process (0, 1)

abbrev over : Timed pq linux bad_descriptor process
over = record begun { context = on_timer linux begun.context; timing = false }

begun-timing : begun.timing ≡ true
unfolding start_timed
begun-timing = refl

begun-Reaches :
    Reaches pq linux bad_descriptor process keep
      (connection (0, 1))
      (within (pos 5))
      10
      11
      (limited begun)
unfolding async_request async_get_connection deadline on_connection start_with
begun-Reaches = Reaches.begun

over-Reaches :
    Reaches pq linux bad_descriptor process keep
      (connection (0, 1))
      (within (pos 5))
      10
      11
      (limited over)
over-Reaches =
    then_step (limited begun) (limited over) begun-Reaches
      (in_limited begun over (timed begun begun-timing))

over-few : length (request_calls pq linux bad_descriptor process (limited over)) ≤ 1
unfolding start_timed read_rest drain
over-few = omega arith

-- The handler is called with the success of the request.
over-called : user_calls pq linux bad_descriptor process (limited over) ≡ none ∷ []
unfolding start_timed deliver read_rest drain on_timer on_operation initial
over-called = refl

Reaches-calls_example :
    AreExpected linux
      (has_ended pq linux bad_descriptor process (limited over))
      (user_calls pq linux bad_descriptor process (limited over))
      (request_calls pq linux bad_descriptor process (limited over))
Reaches-calls_example =
    Reaches-calls pq linux bad_descriptor process keep (connection (0, 1)) (within (pos 5)) 10 11
      (limited over) over-Reaches over-few
