-- ===== src/Failover/RoleBased/Fallback.antt =====
-- The contexts that `role_based_strategy` starts the operation with.
use ozo_pg.Base.{
  ℕ, suc, ◌≡◌, refl, ap, ◌∙◌, inl, inr, List, [], ◌∷◌, ◌++◌, Option, none, some, Bool, true, false,
  length, Bool-cases, if◌then◌else◌,
}
use ozo_pg.Base.Int.{pos}
use ozo_pg.Error.{ErrorCode, Boost}
use ozo_pg.Deadline.{deadline, get_try_time_constraint}
use ozo_pg.Failover.{
  Context, Connection, Event, started, notified, closed, handled, close_deferred, or_true, Outcome,
  FailoverTry, or_give_up, continuation, run, perform,
}
use ozo_pg.Failover.RoleBased.{
  Role, RoleBasedTry, get_first_try, can_recover, get_context, initiate_over, role_based_try,
}
use ozo_pg.Failover.RoleBased.Roles.{run_over}

abbrev pub contexts : List Event → List Context
contexts [] = []
contexts (started c ∷ es) = c ∷ contexts es
contexts (notified ec c ∷ es) = contexts es
contexts (closed c ∷ es) = contexts es
contexts (handled ec c ∷ es) = contexts es

contexts-append : (xs ys : List Event) → contexts (xs ++ ys) ≡ contexts xs ++ contexts ys
contexts-append [] ys = refl
contexts-append (started c ∷ xs) ys = ap (λ cs. c ∷ cs) (contexts-append xs ys)
contexts-append (notified ec c ∷ xs) ys = contexts-append xs ys
contexts-append (closed c ∷ xs) ys = contexts-append xs ys
contexts-append (handled ec c ∷ xs) ys = contexts-append xs ys

contexts-close_deferred : (close : Bool) (c : Connection) → contexts (close_deferred close c) ≡ []
unfolding close_deferred
contexts-close_deferred close none = refl
contexts-close_deferred true (some c) = refl
contexts-close_deferred false (some c) = refl

module _ (b : Boost) (can_recover_impl : ℕ → ErrorCode → Bool) (rebind_role : ℕ → Role → ℕ) where
  -- The roles from the first one on that recovers an error.
  abbrev pub recovering : Option ErrorCode → List Role → List Role
  recovering none rs = []
  recovering (some ec) [] = []
  recovering (some ec) (r ∷ rs) =
      if can_recover b can_recover_impl rebind_role r ec then r ∷ rs else recovering (some ec) rs

  -- The context on a role with `left` behind it: a provider for the role, the share of the time that is
  -- left for the roles from it on, and the arguments.
  abbrev pub context_on : Context → Role → List Role → ℕ → Context
  context_on ctx r left now = record {
    provider = rebind_role ctx.provider r;
    time_constraint = get_try_time_constraint ctx.time_constraint (pos (suc (length left))) now;
    args = ctx.args;
  }

  -- The contexts behind the first: after each failure, that on the first role left that recovers its error.
  abbrev pub fallbacks : Context → List Role → List Outcome → List Context
  fallbacks ctx rs [] = []
  fallbacks ctx rs (o ∷ os) = elim (recovering o.failure rs) [
    | [] ↦ []
    | r ∷ left ↦ context_on ctx r left o.time ∷ fallbacks ctx left os
  ]

  abbrev strategy : FailoverTry
  strategy = role_based_try b can_recover_impl rebind_role

  abbrev try_on : Context → Option Bool → Role → List Role → RoleBasedTry
  try_on ctx close r left = record {
    ctx = ctx;
    role = r;
    next_roles = left;
    close_connection = close;
  }

  -- What a round comes to, by the roles from the one to fall back to on.
  abbrev IsRound : Context → Option Bool → ℕ → List Role → List Event × Option RoleBasedTry → Type 0
  IsRound ctx close now [] (es, next) = (contexts es ≡ []) × (next ≡ none)
  IsRound ctx close now (r ∷ left) (es, next) =
      (contexts es ≡ context_on ctx r left now ∷ []) × (next ≡ some (try_on ctx close r left))

  initiate-IsRound :
      (ctx : Context) (close : Option Bool) (rs : List Role) (now : ℕ) (ec : ErrorCode)
      (c : Connection)
      → IsRound ctx close now
          (recovering (some ec) rs)
          (initiate_over b can_recover_impl rebind_role ctx close rs now ec c)
  unfolding initiate_over
  initiate-IsRound ctx close [] now ec c = (contexts-close_deferred (or_true close) c, refl)
  initiate-IsRound ctx close (r ∷ rs) now ec c =
      elim (Bool-cases (can_recover b can_recover_impl rebind_role r ec)) [
        | inl h ↦ rw h (
          ap (λ cs. context_on ctx r rs now ∷ cs) (contexts-close_deferred (or_true close) c),
          refl,
        )
        | inr h ↦ rw h (initiate-IsRound ctx close rs now ec c)
      ]

  or_give_up-IsRound :
      (ctx : Context) (close : Option Bool) (now : ℕ) (ec : ErrorCode) (c : Connection)
      (rs : List Role) (r : List Event × Option RoleBasedTry)
      → IsRound ctx close now rs r
      → IsRound ctx close now rs (or_give_up strategy ec c r)
  or_give_up-IsRound ctx close now ec c [] (es, none) (h, e) =
      (contexts-append es (handled (some ec) c ∷ []) ∙ ap (λ cs. cs ++ []) h, refl)
  or_give_up-IsRound ctx close now ec c [] (es, some t) h = h
  or_give_up-IsRound ctx close now ec c (r ∷ left) (es, none) (h, e) = absurd cc
  or_give_up-IsRound ctx close now ec c (r ∷ left) (es, some t) h = h

  continuation-IsRound :
      (t : RoleBasedTry) (failure : Option ErrorCode) (c : Connection) (now : ℕ)
      → IsRound t.ctx t.close_connection now
          (recovering failure t.next_roles)
          (continuation strategy t failure c now)
  unfolding continuation
  continuation-IsRound t none c now = (refl, refl)
  continuation-IsRound t (some ec) c now =
      or_give_up-IsRound t.ctx t.close_connection now ec c (recovering (some ec) t.next_roles) _
        (initiate-IsRound t.ctx t.close_connection t.next_roles now ec c)

  abbrev then_fallbacks : Context → ℕ → List Outcome → List Role → List Context
  then_fallbacks ctx now os [] = []
  then_fallbacks ctx now os (r ∷ left) = context_on ctx r left now ∷ fallbacks ctx left os

  then_run-contexts :
      (ctx : Context) (close : Option Bool) (now : ℕ) (os : List Outcome) (rs : List Role)
      (r : List Event × Option RoleBasedTry)
      → IsRound ctx close now rs r
      → ((t : RoleBasedTry) → contexts (run strategy t os) ≡ fallbacks t.ctx t.next_roles os)
      → contexts (r.0 ++ elim r.1 [ none ↦ [] | some t ↦ run strategy t os ])
        ≡ then_fallbacks ctx now os rs
  then_run-contexts ctx close now os [] (es, none) (h, e) rest =
      contexts-append es [] ∙ ap (λ cs. cs ++ []) h
  then_run-contexts ctx close now os [] (es, some t) (h, e) rest = absurd cc
  then_run-contexts ctx close now os (r ∷ left) (es, none) (h, e) rest = absurd cc
  then_run-contexts ctx close now os (r ∷ left) (es, some t) (h, e) rest =
      let same : t ≡ try_on ctx close r left = cc in
      contexts-append es (run strategy t os)
      ∙ ap (λ cs. cs ++ contexts (run strategy t os)) h
      ∙ ap (λ u. context_on ctx r left now ∷ contexts (run strategy u os)) same
      ∙ ap (λ cs. context_on ctx r left now ∷ cs) (rest (try_on ctx close r left))

  fallbacks_lem :
      (ctx : Context) (o : Outcome) (os : List Outcome) (rs : List Role)
      → then_fallbacks ctx o.time os (recovering o.failure rs) ≡ fallbacks ctx rs (o ∷ os)
  fallbacks_lem ctx o os rs = refl

  run-contexts :
      (t : RoleBasedTry) (os : List Outcome)
      → contexts (run strategy t os) ≡ fallbacks t.ctx t.next_roles os
  unfolding run
  run-contexts t [] = refl
  run-contexts t (o ∷ os) =
      then_run-contexts t.ctx t.close_connection o.time os (recovering o.failure t.next_roles)
        (continuation strategy t o.failure o.conn o.time)
        (continuation-IsRound t o.failure o.conn o.time) (λ t'. run-contexts t' os)
      ∙ fallbacks_lem t.ctx o os t.next_roles

  -- An operation under `role_based_strategy` is started first on the first role, and then, after each failure
  -- for which there is one, on the first of the roles left that recovers the error, the roles before it
  -- being passed over for good; each time with the provider rebound to that role, with the share of the time
  -- that is left for the roles from it on, counted from the deadline of the first try, and with the arguments.
  pub run_over-contexts :
      (r : Role) (rs : List Role) (close : Option Bool) (ctx : Context) (now : ℕ)
      (os : List Outcome)
      → let first = record ctx { time_constraint = deadline ctx.time_constraint now } in
        contexts (run_over b can_recover_impl rebind_role r rs close ctx now os)
        ≡ context_on first r rs now ∷ fallbacks first rs os
  unfolding perform get_first_try
  run_over-contexts r rs close ctx now os =
      let t = get_first_try r rs close ctx now in
      ap (λ cs. get_context b can_recover_impl rebind_role t now ∷ cs) (run-contexts t os)
