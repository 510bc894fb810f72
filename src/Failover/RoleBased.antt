-- ===== src/Failover/RoleBased.antt =====
-- failover/role_based.h: the roles, `role_based_try` and `role_based_strategy`. The source of connections
-- is the caller's, so is what a role of the caller's recovers: both are parameters.
pub mod Roles
pub mod Fallback
pub mod Sources
use ozo_pg.Base.{ℕ, suc, List, [], ◌∷◌, Option, none, some, Bool, if◌then◌else◌, length}
use ozo_pg.Base.Int.{pos}
use ozo_pg.Deadline.{TimeConstraint, deadline, get_try_time_constraint}
use ozo_pg.Error.{
  ErrorCode, Errc, connection_error, type_mismatch, protocol_error, database_readonly, Boost,
  match_any,
}
use ozo_pg.Failover.{
  Context, Connection, Event, started, notified, close_deferred, or_true, FailoverTry,
}

pub data Role : Type 0 where
  master : Role
  replica : Role
  custom : ℕ → Role

abbrev pub master_conditions : List Errc
master_conditions =
    Errc.connection_error ∷ Errc.type_mismatch ∷ Errc.protocol_error ∷ Errc.database_readonly ∷ []

abbrev pub replica_conditions : List Errc
replica_conditions = Errc.connection_error ∷ Errc.type_mismatch ∷ Errc.protocol_error ∷ []

-- The roles of `roles_seq()` from `role_index()` on: the try's own role, and those behind it.
pub record RoleBasedTry : Type 0 where
  pub ctx : Context
  pub role : Role
  pub next_roles : List Role
  pub close_connection : Option Bool

-- `hana::size(roles_seq()) - role_index()`.
abbrev pub tries_left : RoleBasedTry → ℕ
tries_left t = suc (length t.next_roles)

-- `role_based_strategy::get_first_try`: the sequence of roles is not empty.
unfoldable pub get_first_try : Role → List Role → Option Bool → Context → ℕ → RoleBasedTry
get_first_try r rs close ctx now = record {
  ctx = record ctx { time_constraint = deadline ctx.time_constraint now };
  role = r;
  next_roles = rs;
  close_connection = close;
}

module _ (b : Boost) (can_recover_impl : ℕ → ErrorCode → Bool) (rebind_role : ℕ → Role → ℕ) where
  unfoldable pub can_recover : Role → ErrorCode → Bool
  can_recover master ec = match_any b master_conditions ec
  can_recover replica ec = match_any b replica_conditions ec
  can_recover (custom n) ec = can_recover_impl n ec

  abbrev pub get_context : RoleBasedTry → ℕ → Context
  get_context t now = record {
    provider = rebind_role t.ctx.provider t.role;
    time_constraint = get_try_time_constraint t.ctx.time_constraint (pos (tries_left t)) now;
    args = t.ctx.args;
  }

  -- `initiate_next_try` of a try with `rs` behind it. Its guard closes the connection after the next try is
  -- initiated, and is released before the roles behind that are asked.
  unfoldable pub initiate_over :
      Context
      → Option Bool
      → List Role
      → ℕ
      → ErrorCode
      → Connection
      → List Event × Option RoleBasedTry
  unfolding close_deferred
  initiate_over ctx close [] now ec c = (close_deferred (or_true close) c, none)
  initiate_over ctx close (r ∷ rs) now ec c =
      let rest = initiate_over ctx close rs now ec c in
      let fallback : RoleBasedTry = record {
        ctx = ctx;
        role = r;
        next_roles = rs;
        close_connection = close;
      } in
      if can_recover r ec
      then (
        notified ec c ∷ started (get_context fallback now) ∷ close_deferred (or_true close) c,
        some fallback,
      )
      else rest

  abbrev pub role_based_try : FailoverTry
  role_based_try = record {
    Try = RoleBasedTry;
    get_context = get_context;
    initiate_next_try = λ t now ec c. initiate_over t.ctx t.close_connection t.next_roles now ec c;
  }
