-- ===== src/Request/Reached.antt =====
-- How often the handler of a request is called, and with what.
use ozo_pg.Base.{◌≤◌, ◌<◌, ◌≡◌, ◌⊎◌, [], ◌∷◌, none, some, Bool, true, length}
use ozo_pg.Error.{ErrorCode, Boost}
use ozo_pg.Request.{error, send_finish, Libpq, Request, Reachable, started, after}
use ozo_pg.Request.Calls.{IsCalledOnce, Calls-shape, Calls-live, Calls-returned}
use ozo_pg.Request.Sound.{has_returned, IsSound}
use ozo_pg.Request.Start.{start-IsSound, Step-IsSound}

module _ (pq : Libpq) (b : Boost) (bad_descriptor : ErrorCode) (process : pq.Res → Bool) where
  Reachable-IsSound :
      (s : Request pq b bad_descriptor process)
      → Reachable pq b bad_descriptor process s
      → IsSound pq b bad_descriptor process s
  Reachable-IsSound s (started n) = start-IsSound pq b bad_descriptor process n
  Reachable-IsSound s (after s₀ _ r step) =
      Step-IsSound pq b bad_descriptor process s₀ s step (Reachable-IsSound s₀ r)

  -- In every reachable state the handler of a request has been called at most once, or first with a success
  -- and then once more with an error.
  pub Reachable-calls :
      (s : Request pq b bad_descriptor process)
      → Reachable pq b bad_descriptor process s
      → (s.calls ≡ [])
        ⊎ (IsCalledOnce s.calls
            ⊎ ((ec : ErrorCode) × (s.calls ≡ none ∷ some ec ∷ []) × (s.state ≡ error)))
  Reachable-calls s r =
      Calls-shape (has_returned pq b bad_descriptor process s.reader) s.state s.calls
        (Reachable-IsSound s r)

  -- In a reachable state in which the query has been sent and has not failed, the handler has been
  -- called at most once.
  Reachable-calls_sent :
      (s : Request pq b bad_descriptor process)
      → Reachable pq b bad_descriptor process s
      → s.state ≡ send_finish
      → length s.calls ≤ 1
  Reachable-calls_sent s r e =
      Calls-live (has_returned pq b bad_descriptor process s.reader) s.state s.calls (rw e tt)
        (Reachable-IsSound s r)

  -- In a reachable state in which the operation that reads the results has returned, the handler has
  -- been called.
  pub Reachable-calls_returned :
      (s : Request pq b bad_descriptor process)
      → Reachable pq b bad_descriptor process s
      → has_returned pq b bad_descriptor process s.reader ≡ true
      → 0 < length s.calls
  Reachable-calls_returned s r e =
      Calls-returned (has_returned pq b bad_descriptor process s.reader) s.state s.calls e
        (Reachable-IsSound s r)
