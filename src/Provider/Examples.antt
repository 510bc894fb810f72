-- ===== src/Provider/Examples.antt =====
-- A source behind two bounds, with a deadline.
use ozo_pg.Base.{◌≡◌, refl, [], ◌∷◌, ◌++◌, Option, none}
use ozo_pg.Base.Int.{ℤ, pos}
use ozo_pg.Error.{ErrorCode}
use ozo_pg.Deadline.{TimeConstraint, at, within, time_left}
use ozo_pg.Provider.{source, timeout, async_get_connection}
use ozo_pg.Provider.Least.{bounded, left, IsOneOf, IsBelow, async_get_connection-least}

-- The connection that the source gives is the time constraint that it was asked for.
abbrev asked : TimeConstraint → Option ErrorCode × TimeConstraint
asked t = (none, t)

abbrev keep : TimeConstraint → TimeConstraint
keep t = t

least_bound :
    async_get_connection keep (bounded (pos 30 ∷ pos 20 ∷ []) (source asked)) (at 125) 100
    ≡ asked (within (pos 20))
unfolding async_get_connection timeout time_left
least_bound = refl

async_get_connection-least_example :
    (m : ℤ) × (async_get_connection keep
        (bounded (pos 30 ∷ pos 20 ∷ []) (source asked))
        (at 125)
        100
      ≡ asked (within m))
    × IsOneOf m (left (at 125) 100 ++ (pos 30 ∷ pos 20 ∷ []))
    × IsBelow m (left (at 125) 100 ++ (pos 30 ∷ pos 20 ∷ []))
async_get_connection-least_example =
    async_get_connection-least keep asked 100 (at 125) (pos 30) (pos 20 ∷ [])
