-- ===== src/Failover/RoleBased/Roles.antt =====
-- The rounds of `role_based_strategy`: what a role recovers, how often the operation is started and its
-- handler called, and what becomes of the connections.
use ozo_pg.Base.{
  ℕ, ◌+◌, ◌≤◌, ◌<◌, ◌≡◌, refl, inl, inr, List, [], ◌∷◌, Option, none, some, Bool, true, false,
  true≢false, ◌||◌, ap, length, Bool-cases, arith,
}
use ozo_pg.Error.{ErrorCode, Errc, Boost, match_any, is_errc}
use ozo_pg.Failover.{
  Context, Connection, Event, or_true, Outcome, perform, count_started, count_handled, count_closed,
}
use ozo_pg.Failover.Completion.{IsStrategy, started_for, perform-handled_once, perform-bounded}
use ozo_pg.Failover.Closing.{closes, close_deferred-counts, close_deferred-closes}
use ozo_pg.Failover.RoleBased.{
  Role, master, replica, RoleBasedTry, get_first_try, can_recover, initiate_over, role_based_try,
}

or_assoc : (w x y z : Bool) → (w || (x || (y || (z || false)))) ≡ ((w || (x || (y || false))) || z)
or_assoc true x y z = refl
or_assoc false true y z = refl
or_assoc false false true z = refl
or_assoc false false false true = refl
or_assoc false false false false = refl

module _ (b : Boost) (can_recover_impl : ℕ → ErrorCode → Bool) (rebind_role : ℕ → Role → ℕ) where
  abbrev pub recovers : Role → ErrorCode → Bool
  recovers = can_recover b can_recover_impl rebind_role

  abbrev pub initiate :
      Context
      → Option Bool
      → List Role
      → ℕ
      → ErrorCode
      → Connection
      → List Event × Option RoleBasedTry
  initiate = initiate_over b can_recover_impl rebind_role

  -- The master role recovers what the replica role does, and an error of a database that is read only.
  can_recover-master :
      (ec : ErrorCode)
      → recovers master ec ≡ (recovers replica ec || is_errc b Errc.database_readonly ec)
  unfolding can_recover match_any
  can_recover-master ec =
      or_assoc (is_errc b Errc.connection_error ec) (is_errc b Errc.type_mismatch ec)
        (is_errc b Errc.protocol_error ec) (is_errc b Errc.database_readonly ec)

  -- The connection of a failed try is closed once however many roles are passed over, unless it is null or
  -- the options say not to.
  initiate-closes :
      (ctx : Context) (close : Option Bool) (rs : List Role) (now : ℕ) (ec : ErrorCode)
      (c : Connection)
      → count_closed (initiate ctx close rs now ec c).0 ≡ closes (or_true close) c
  unfolding initiate_over
  initiate-closes ctx close [] now ec c = close_deferred-closes (or_true close) c
  initiate-closes ctx close (r ∷ rs) now ec c = elim (Bool-cases (recovers r ec)) [
    | inl h ↦ rw (h) (close_deferred-closes (or_true close) c)
    | inr h ↦ rw (h) (initiate-closes ctx close rs now ec c)
  ]

  initiate-quiet :
      (ctx : Context) (close : Option Bool) (rs : List Role) (now : ℕ) (ec : ErrorCode)
      (c : Connection)
      → count_handled (initiate ctx close rs now ec c).0 ≡ 0
  unfolding initiate_over
  initiate-quiet ctx close [] now ec c = (close_deferred-counts (or_true close) c).0
  initiate-quiet ctx close (r ∷ rs) now ec c = elim (Bool-cases (recovers r ec)) [
    | inl h ↦ rw (h) (close_deferred-counts (or_true close) c).0
    | inr h ↦ rw (h) (initiate-quiet ctx close rs now ec c)
  ]

  initiate-starts :
      (ctx : Context) (close : Option Bool) (rs : List Role) (now : ℕ) (ec : ErrorCode)
      (c : Connection)
      → count_started (initiate ctx close rs now ec c).0
        ≡ started_for (initiate ctx close rs now ec c).1
  unfolding initiate_over
  initiate-starts ctx close [] now ec c = (close_deferred-counts (or_true close) c).1
  initiate-starts ctx close (r ∷ rs) now ec c = elim (Bool-cases (recovers r ec)) [
    | inl h ↦ rw (h) (let k = (close_deferred-counts (or_true close) c).1 in omega arith)
    | inr h ↦ rw (h) (initiate-starts ctx close rs now ec c)
  ]

  initiate-falls :
      (ctx : Context) (close : Option Bool) (rs : List Role) (now : ℕ) (ec : ErrorCode)
      (c : Connection) (t : RoleBasedTry)
      → (initiate ctx close rs now ec c).1 ≡ some t
      → length t.next_roles < length rs
  unfolding initiate_over
  initiate-falls ctx close [] now ec c t e =
      absurd (true≢false (ap (λ o. elim o [ none ↦ true | some d ↦ false ]) e))
  initiate-falls ctx close (r ∷ rs) now ec c t e = elim (Bool-cases (recovers r ec)) [
    | inl h ↦
        let e' = rw h at e in
        let k : length rs ≡ length t.next_roles =
          ap (λ o. elim o [ none ↦ length rs | some u ↦ length u.next_roles ]) e' in
        omega arith
    | inr h ↦ let e' = rw h at e in let k = initiate-falls ctx close rs now ec c t e' in omega arith
  ]

  unfoldable role_based-IsStrategy : IsStrategy (role_based_try b can_recover_impl rebind_role)
  role_based-IsStrategy = record {
    retries_left = λ t. length t.next_roles;
    quiet = λ t now ec c. initiate-quiet t.ctx t.close_connection t.next_roles now ec c;
    starts = λ t now ec c. initiate-starts t.ctx t.close_connection t.next_roles now ec c;
    falls = λ t now ec c t' e. initiate-falls t.ctx t.close_connection t.next_roles now ec c t' e;
  }

  abbrev pub run_over : Role → List Role → Option Bool → Context → ℕ → List Outcome → List Event
  run_over r rs close ctx now os =
      perform (role_based_try b can_recover_impl rebind_role) (get_first_try r rs close ctx now) now
        os

  -- An operation under `role_based_strategy` is started no more often than there are roles, and its handler
  -- is called at most once.
  role_based-bounded :
      (r : Role) (rs : List Role) (close : Option Bool) (ctx : Context) (now : ℕ)
      (os : List Outcome)
      → (count_handled (run_over r rs close ctx now os) ≤ 1)
        × (count_started (run_over r rs close ctx now os) ≤ 1 + length rs)
  unfolding get_first_try role_based-IsStrategy
  role_based-bounded r rs close ctx now os =
      perform-bounded (role_based_try b can_recover_impl rebind_role) role_based-IsStrategy
        (get_first_try r rs close ctx now) now os

  -- When the operation has come to an end as often as there are roles, its handler has been called exactly
  -- once.
  pub role_based-handled_once :
      (r : Role) (rs : List Role) (close : Option Bool) (ctx : Context) (now : ℕ)
      (os : List Outcome)
      → length rs < length os
      → count_handled (run_over r rs close ctx now os) ≡ 1
  unfolding get_first_try role_based-IsStrategy
  role_based-handled_once r rs close ctx now os h =
      perform-handled_once (role_based_try b can_recover_impl rebind_role) role_based-IsStrategy
        (get_first_try r rs close ctx now) now os h
