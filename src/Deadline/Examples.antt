-- ===== src/Deadline/Examples.antt =====
-- Times on which the theorems on deadline.h are run.
use ozo_pg.Base.{ℕ, ◌≤◌, ◌≡◌, ◌↔◌, true}
use ozo_pg.Deadline.{expired}
use ozo_pg.Deadline.Shares.{expired_iff}
use ozo_pg.Error.{ErrorCode, boost}

abbrev aborted : ErrorCode
aborted = record { category = boost 0; value = 125 }

expired_iff_example : (expired 100 150 ≡ true) ↔ (100 ≤ 150)
expired_iff_example = expired_iff 100 150

abbrev answer : ℕ
answer = 7
