-- ===== src/Request/Start.antt =====
-- The start of a request, and the ends of its waits.
use ozo_pg.Base.{◌≡◌, refl, subst, [], Option, none, some, Bool, true, false}
use ozo_pg.Error.{ErrorCode, Boost}
use ozo_pg.Request.{
  QueryState, error, send_finish, send_in_progress, Libpq, waits_first, Request, on_flush,
  on_written_at, on_sent, on_nonblocking, read_perform_at, start, Step, written, readable,
}
use ozo_pg.Request.Calls.{Calls, going, return-Calls}
use ozo_pg.Request.Sound.{
  has_returned, IsSound, on_written-IsSound, on_nonblocking-IsSound, read_first-IsSound,
  on_readable_at-IsSound,
}

module _ (pq : Libpq) (b : Boost) (bad_descriptor : ErrorCode) (process : pq.Res → Bool) where
  -- Sending leaves the reader where it is.
  pub on_flush-reader :
      (q : QueryState) (s : Request pq b bad_descriptor process)
      → (on_flush pq b bad_descriptor process q s).reader ≡ s.reader
  on_flush-reader error s = refl
  on_flush-reader send_in_progress s = refl
  on_flush-reader send_finish s = refl

  pub on_written_at-reader :
      (q : QueryState) (ec : Option ErrorCode) (s : Request pq b bad_descriptor process)
      → (on_written_at pq b bad_descriptor process q ec s).reader ≡ s.reader
  on_written_at-reader error ec s = refl
  on_written_at-reader send_finish ec s = refl
  on_written_at-reader send_in_progress none s =
      let (q, native) = pq.flush_output s.native in on_flush-reader q (record s { native = native })
  on_written_at-reader send_in_progress (some ec) s = refl

  pub on_sent-reader :
      (sent : Bool) (s : Request pq b bad_descriptor process)
      → (on_sent pq b bad_descriptor process sent s).reader ≡ s.reader
  on_sent-reader true s = on_written_at-reader s.state none s
  on_sent-reader false s = refl

  pub on_nonblocking-reader :
      (refused : Bool) (s : Request pq b bad_descriptor process)
      → (on_nonblocking pq b bad_descriptor process refused s).reader ≡ s.reader
  on_nonblocking-reader true s = refl
  on_nonblocking-reader false s =
      let (sent, native) = pq.send_query_params s.native in
      on_sent-reader sent (record s { native = native })

  pub read_perform_at-IsSound :
      (q : QueryState) (s : Request pq b bad_descriptor process)
      → s.state ≡ q
      → Calls false s.state s.calls
      → IsSound pq b bad_descriptor process (read_perform_at pq b bad_descriptor process q s)
  read_perform_at-IsSound error s e h = return-Calls false s.state s.calls e h
  read_perform_at-IsSound send_finish s e h =
      read_first-IsSound pq b bad_descriptor process s (rw e tt) h
  read_perform_at-IsSound send_in_progress s e h =
      read_first-IsSound pq b bad_descriptor process s (rw e tt) h

  pub start-IsSound :
      (n : pq.Native) → IsSound pq b bad_descriptor process (start pq b bad_descriptor process n)
  start-IsSound n =
      let (refused, native) = pq.set_nonblocking n in
      let s₀ : Request pq b bad_descriptor process = record {
        native = native;
        state = send_in_progress;
        sending = false;
        reader = waits_first;
        calls = [];
        cancelled = false;
      } in
      let s = on_nonblocking pq b bad_descriptor process refused s₀ in
      let h : IsSound pq b bad_descriptor process s =
        on_nonblocking-IsSound pq b bad_descriptor process refused s₀ tt
          (going send_in_progress tt) in
      read_perform_at-IsSound s.state s refl (
        subst (λ r. Calls (has_returned pq b bad_descriptor process r) s.state s.calls)
          (on_nonblocking-reader refused s₀) h)

  pub Step-IsSound :
      (s s' : Request pq b bad_descriptor process)
      → Step pq b bad_descriptor process s s'
      → IsSound pq b bad_descriptor process s
      → IsSound pq b bad_descriptor process s'
  Step-IsSound s s' (written _ n ec e) h =
      on_written-IsSound pq b bad_descriptor process ec (record s { native = n; sending = false }) h
  Step-IsSound s s' (readable _ n ec w) h =
      on_readable_at-IsSound pq b bad_descriptor process s.state ec (record s { native = n }) refl w
        h
