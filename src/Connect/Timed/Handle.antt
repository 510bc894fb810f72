-- ===== src/Connect/Timed/Handle.antt =====
-- impl/async_connect.h: the handle and the socket of a connection that is being made.
use ozo_pg.Base.{
  ℕ, ◌≡◌, refl, sym, ap, subst, ◌⊎◌, inl, inr, [], ◌∷◌, ◌++◌, Option, none, some, Bool, true, false,
}
use ozo_pg.Error.{ErrorCode}
use ozo_pg.Connection.{Libpq, Connection, assign_socket, assign, connection_status_bad}
use ozo_pg.Connect.{
  PollingStatus, pgres_polling_failed, pgres_polling_reading, pgres_polling_writing,
  pgres_polling_ok, pgres_polling_active, ConnectOp, done, drop_handle, on_assigned, on_status,
  perform, on_poll, on_wait,
}

module _ (pq : Libpq) (start : Option ℕ) where
  -- The handle is the one that the start gave, which was not bad, and the socket is that of the handle.
  abbrev pub IsEstablished : Connection → Type 0
  IsEstablished c =
      (handle : ℕ) × (start ≡ some handle)
      × (connection_status_bad pq start ≡ false)
      × (c.handle ≡ some handle)
      × (fd : ℕ) × (pq.socket handle ≡ some fd)
      × (c.socket ≡ some fd)

  -- That, or the connect operation has ended with an error.
  abbrev pub OpEstablished : ConnectOp → Type 0
  OpEstablished op =
      IsEstablished op.connection
      ⊎ ((e : ErrorCode) × (op.waiting ≡ none) × (op.calls ≡ some e ∷ []))

  done-refused : (e : ErrorCode) (op : ConnectOp) → op.calls ≡ [] → OpEstablished (done (some e) op)
  unfolding done
  done-refused e op h = inr (e, refl, ap (λ cs. cs ++ (some e ∷ [])) h)

  on_assigned-OpEstablished :
      (handle : ℕ) (socket : Option ℕ) (c : Connection) (op : ConnectOp)
      → start ≡ some handle
      → connection_status_bad pq start ≡ false
      → pq.socket handle ≡ socket
      → op.calls ≡ []
      → OpEstablished (on_assigned handle (assign_socket socket handle c) op)
  unfolding on_assigned assign_socket drop_handle
  on_assigned-OpEstablished handle none c op e well s h =
      done-refused _ (record op { connection = c }) h
  on_assigned-OpEstablished handle (some fd) c op e well s h =
      inl (handle, e, well, refl, fd, s, refl)

  on_status-OpEstablished :
      (handle : ℕ) (bad : Bool) (op : ConnectOp)
      → start ≡ some handle
      → connection_status_bad pq start ≡ bad
      → op.calls ≡ []
      → OpEstablished (on_status pq handle bad op)
  unfolding on_status assign drop_handle
  on_status-OpEstablished handle true op e status h = done-refused _ op h
  on_status-OpEstablished handle false op e status h =
      on_assigned-OpEstablished handle (pq.socket handle) op.connection op e status refl h

  on_poll-connection :
      (p : PollingStatus) (op : ConnectOp)
      → (let op' = on_poll p op in op'.connection) ≡ op.connection
  unfolding on_poll done
  on_poll-connection pgres_polling_ok op = refl
  on_poll-connection pgres_polling_writing op = refl
  on_poll-connection pgres_polling_reading op = refl
  on_poll-connection pgres_polling_failed op = refl
  on_poll-connection pgres_polling_active op = refl

  pub on_wait-IsEstablished :
      (ec : Option ErrorCode) (p : PollingStatus) (op : ConnectOp)
      → IsEstablished op.connection
      → IsEstablished (let op' = on_wait ec p op in op'.connection)
  unfolding on_wait done
  on_wait-IsEstablished (some ec) p op h = h
  on_wait-IsEstablished none p op h = subst IsEstablished (sym (on_poll-connection p op)) h

  pub perform-OpEstablished :
      (handle : Option ℕ) (op : ConnectOp)
      → start ≡ handle
      → op.calls ≡ []
      → OpEstablished (perform pq handle op)
  unfolding perform
  perform-OpEstablished none op e h = done-refused _ op h
  perform-OpEstablished (some handle) op e h =
      on_status-OpEstablished handle (connection_status_bad pq (some handle)) op e
        (ap (connection_status_bad pq) e) h
