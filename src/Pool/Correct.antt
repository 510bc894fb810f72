-- ===== src/Pool/Correct.antt =====
-- impl/connection_pool.h: what is given back to the pool, and what a request for a connection gives.
use ozo_pg.Base.{
  ℕ, ◌≡◌, refl, sym, ap, ◌∙◌, subst, ◌↔◌, Option, none, some, Bool, true, false, not, true≢false,
}
use ozo_pg.Error.{ErrorCode}
use ozo_pg.Connection.{
  Libpq, ConnStatus, PgTransactionStatus, pqtrans_idle, Connection, release, connection_status_bad,
  connection_status_ok, is_connection_ok, TransactionStatus, status_of,
}
use ozo_pg.Pool.{
  ConnectionRep, PooledConnection, native_handle, recycled, fate, create_pooled_connection, is_bad,
  destroy, obtain_usable, obtain, wrap, answered, get_connection, PoolCall, handle_of,
}

module _ (pq : Libpq) where
  -- The connection of a handle is well and in no transaction.
  abbrev pub IsReusable : Option ℕ → Type 0
  IsReusable none = ⊥
  IsReusable (some handle) =
      (pq.status handle ≡ ConnStatus.connection_ok)
      × (pq.transaction_status (some handle) ≡ pqtrans_idle)

  fate-recycled :
      (bad : Bool) (status : Option TransactionStatus) (o : Option ConnectionRep)
      (rep : ConnectionRep)
      → fate bad status o ≡ recycled rep
      → (bad ≡ false) × (status ≡ some TransactionStatus.idle) × (o ≡ some rep)
  unfolding fate
  fate-recycled bad status none rep h = absurd cc
  fate-recycled true status (some r) rep h = absurd cc
  fate-recycled false none (some r) rep h = absurd cc
  fate-recycled false (some TransactionStatus.idle) (some r) rep h =
      let e : r ≡ rep = cc in (refl, refl, ap (λ x. some x) e)
  fate-recycled false (some TransactionStatus.unknown) (some r) rep h = absurd cc
  fate-recycled false (some TransactionStatus.active) (some r) rep h = absurd cc
  fate-recycled false (some TransactionStatus.transaction) (some r) rep h = absurd cc
  fate-recycled false (some TransactionStatus.error) (some r) rep h = absurd cc

  status_of-idle :
      (s : PgTransactionStatus) → status_of s ≡ some TransactionStatus.idle → s ≡ pqtrans_idle
  unfolding status_of
  status_of-idle PgTransactionStatus.pqtrans_unknown h = absurd cc
  status_of-idle PgTransactionStatus.pqtrans_idle h = refl
  status_of-idle PgTransactionStatus.pqtrans_active h = absurd cc
  status_of-idle PgTransactionStatus.pqtrans_intrans h = absurd cc
  status_of-idle PgTransactionStatus.pqtrans_inerror h = absurd cc
  status_of-idle (PgTransactionStatus.pqtrans_other n) h = absurd cc

  ok-status : (s : ConnStatus) → is_connection_ok s ≡ true → s ≡ ConnStatus.connection_ok
  ok-status ConnStatus.connection_ok h = refl
  ok-status ConnStatus.connection_bad h = absurd (true≢false (sym h))
  ok-status ConnStatus.connection_other h = absurd (true≢false (sym h))

  not-false : (b : Bool) → not b ≡ false → b ≡ true
  not-false true h = refl
  not-false false h = absurd (true≢false h)

  reusable :
      (o : Option ℕ)
      → connection_status_ok pq o ≡ true
      → pq.transaction_status o ≡ pqtrans_idle
      → IsReusable o
  unfolding connection_status_ok
  reusable none h t = absurd (true≢false (sym h))
  reusable (some handle) h t = (ok-status (pq.status handle) h, t)

  destroy_at :
      (rep : ConnectionRep) (o : Option ℕ)
      → rep.safe_handle ≡ o
      → IsReusable o
      → fate (not (connection_status_ok pq o)) (status_of (pq.transaction_status o)) (some rep)
        ≡ recycled rep
  unfolding fate status_of connection_status_ok
  destroy_at rep none e h = absurd h
  destroy_at rep (some handle) e (h, t) = rw (h, t) refl

  -- A pooled connection that is destroyed is given back to the pool exactly when it holds a connection that
  -- is well and in no transaction, and it gives back that one.
  pub destroy-recycled_iff :
      (p : PooledConnection) (rep : ConnectionRep)
      → (destroy pq p ≡ recycled rep) ↔ ((p.rep ≡ some rep) × IsReusable rep.safe_handle)
  unfolding destroy is_bad native_handle
  destroy-recycled_iff p rep = (
    λ h.
        let (good, idle, e) =
          fate-recycled (is_bad pq p) (status_of (pq.transaction_status (native_handle p))) p.rep
            rep h in
        let here : native_handle p ≡ rep.safe_handle = ap handle_of e in
        (
          e,
          subst IsReusable here
              (reusable (native_handle p) (not-false _ good) (status_of-idle _ idle)),
        ),
    λ k.
        let (e, h) = k in
        ap
          (λ o.
            fate (not (connection_status_ok pq (handle_of o)))
              (status_of (pq.transaction_status (handle_of o))) o)
          e
        ∙ destroy_at rep rep.safe_handle refl h,
  )

  -- What a source promises: with no error, a connection that is not bad.
  abbrev pub IsHonest : Option ErrorCode × Option Connection → Type 0
  IsHonest (some ec, conn) = Unit
  IsHonest (none, none) = ⊥
  IsHonest (none, some c) = connection_status_bad pq c.handle ≡ false

  -- And the pool.
  abbrev pub IsServed : PoolCall → Type 0
  IsServed (some ec, conn) = Unit
  IsServed (none, none) = ⊥
  IsServed (none, some p) = connection_status_bad pq (native_handle p) ≡ false

  wrap-IsServed :
      (ec : Option ErrorCode) (conn : Option Connection)
      → IsHonest (ec, conn)
      → IsServed (wrap pq ec conn).0
  unfolding wrap create_pooled_connection native_handle release
  wrap-IsServed (some ec) none h = tt
  wrap-IsServed (some ec) (some c) h = tt
  wrap-IsServed none none h = absurd h
  wrap-IsServed none (some c) h = h

  usable-IsServed :
      (bad : Bool) (rep : ConnectionRep) (ec : Option ErrorCode) (conn : Option Connection)
      → connection_status_bad pq rep.safe_handle ≡ bad
      → IsHonest (ec, conn)
      → IsServed (answered pq (obtain_usable pq bad rep) (ec, conn))
  unfolding answered obtain_usable create_pooled_connection native_handle
  usable-IsServed true rep ec conn e h = wrap-IsServed ec conn h
  usable-IsServed false rep ec conn e h = e

  -- Where the source, if it is asked and has no error, gives a connection that is not bad: a request whose
  -- handler gets no error gets a connection, and one that is not bad, whatever the pool gives and keeps.
  pub get_connection-IsServed :
      (ec : Option ErrorCode) (handle : Option ConnectionRep)
      (source : Option ErrorCode × Option Connection)
      → IsHonest source
      → IsServed (get_connection pq ec handle source)
  unfolding get_connection obtain answered
  get_connection-IsServed (some ec) handle source h = tt
  get_connection-IsServed none none (ec, conn) h = wrap-IsServed ec conn h
  get_connection-IsServed none (some rep) (ec, conn) h =
      usable-IsServed (connection_status_bad pq rep.safe_handle) rep ec conn refl h
