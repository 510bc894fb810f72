-- ===== src/Provider.antt =====
-- connector.h, connection.h: what provides a connection, with the time that may take.
mod Least
mod Examples
use ozo_pg.Base.{ℕ, Option, none, if◌then◌else◌}
use ozo_pg.Base.Int.{ℤ, pos, less}
use ozo_pg.Error.{ErrorCode}
use ozo_pg.Deadline.{TimeConstraint, at, within, time_left}

-- `std::min`
abbrev pub min_duration : ℤ → ℤ → ℤ
min_duration a b = if less b a then b else a

-- `bind_get_connection_timeout::timeout`
unfoldable pub timeout : ℤ → TimeConstraint → ℕ → ℤ
unfolding time_left
timeout own TimeConstraint.none now = own
timeout own (at t) now = min_duration own (pos (time_left t now))
timeout own (within t) now = min_duration own t

-- A connection is itself a provider; a source gives an error, if any, and a connection, for a time
-- constraint; `bound` is `bind_get_connection_timeout`.
pub data Provider (C : Type 0) : Type 0 where
  connection : C → Provider C
  source : (TimeConstraint → Option ErrorCode × C) → Provider C
  bound : Provider C → ℤ → Provider C

-- What the handler is called with; `clear` is `set_error_context()` of the unwrapped connection.
unfoldable pub async_get_connection :
    {C : Type 0} → (C → C) → Provider C → TimeConstraint → ℕ → Option ErrorCode × C
unfolding timeout
async_get_connection clear (connection c) t now = (none, clear c)
async_get_connection clear (source s) t now = s t
async_get_connection clear (bound target own) t now =
    async_get_connection clear target (within (timeout own t now)) now
