-- ===== src/Connection/Handles.antt =====
-- impl/connection.h: what becomes of the handles that a connection is given.
use ozo_pg.Base.{
  ℕ, ◌+◌, ◌≡◌, refl, sym, List, [], ◌∷◌, Option, none, some, if◌then◌else◌, ◌==◌, arith,
}
use ozo_pg.Error.{ErrorCode}
use ozo_pg.Connection.{
  Libpq, Connection, assign, assign_socket, release, close, destroy, finish, new_connection,
}

-- What a client does with a connection.
pub data Operation : Type 0 where
  assigns : ℕ → Operation
  releases closes : Operation

-- A handle that is refused stays with the client, and one that is released goes to the client.
abbrev pub kept : ℕ → Option ErrorCode → List ℕ → List ℕ
kept handle none outside = outside
kept handle (some ec) outside = handle ∷ outside

module _ (pq : Libpq) where
  unfoldable pub operate : Operation → Connection × List ℕ → Connection × List ℕ
  unfolding assign release close
  operate (assigns handle) (c, outside) =
      let (c', ec) = assign pq handle c in (c', kept handle ec outside)
  operate releases (c, outside) = let (c', handle) = release c in (c', finish handle outside)
  operate closes (c, outside) = (close c, outside)

  unfoldable pub operate_all : List Operation → Connection × List ℕ → Connection × List ℕ
  unfolding operate
  operate_all [] s = s
  operate_all (o ∷ os) s = operate_all os (operate o s)

abbrev pub assigned : List Operation → List ℕ
assigned [] = []
assigned (assigns handle ∷ os) = handle ∷ assigned os
assigned (releases ∷ os) = assigned os
assigned (closes ∷ os) = assigned os

abbrev pub count : ℕ → List ℕ → ℕ
count h [] = 0
count h (x ∷ xs) = (if x == h then 1 else 0) + count h xs

abbrev held : Option ℕ → List ℕ
held none = []
held (some handle) = handle ∷ []

finish-count :
    (h : ℕ) (o : Option ℕ) (l : List ℕ) → count h (finish o l) ≡ count h (held o) + count h l
finish-count h none l = omega arith
finish-count h (some x) l = omega arith

abbrev total : ℕ → Connection × List ℕ → ℕ
total h (c, outside) = count h (held c.handle) + count h c.finished + count h outside

module _ (pq : Libpq) where
  assign_socket-total :
      (h : ℕ) (fd : Option ℕ) (handle : ℕ) (c : Connection) (outside : List ℕ)
      → total h ((assign_socket fd handle c).0, kept handle (assign_socket fd handle c).1 outside)
        ≡ total h (c, outside) + count h (handle ∷ [])
  unfolding assign_socket
  assign_socket-total h none handle c outside = omega arith
  assign_socket-total h (some fd) handle c outside =
      let f = finish-count h c.handle c.finished in omega (arith, f)

  operate_all-total :
      (h : ℕ) (os : List Operation) (c : Connection) (outside : List ℕ)
      → total h (operate_all pq os (c, outside)) ≡ total h (c, outside) + count h (assigned os)
  unfolding operate_all operate assign release close
  operate_all-total h [] c outside = omega arith
  operate_all-total h (assigns handle ∷ os) c outside =
      let a = assign_socket-total h (pq.socket handle) handle c outside in
      let ih =
        operate_all-total h os (assign_socket (pq.socket handle) handle c).0
          (kept handle (assign_socket (pq.socket handle) handle c).1 outside) in
      omega (arith, a, ih)
  operate_all-total h (releases ∷ os) c outside =
      let f = finish-count h c.handle outside in
      let ih = operate_all-total h os (release c).0 (finish c.handle outside) in
      omega (arith, f, ih)
  operate_all-total h (closes ∷ os) c outside =
      let f = finish-count h c.handle c.finished in
      let ih = operate_all-total h os (close c) outside in omega (arith, f, ih)

  -- Whatever a client does with a connection, once the connection is destroyed each handle has been given to
  -- `PQfinish`, or is with the client, as often as it was assigned: none is lost and none is finished twice.
  pub operate_all-handles :
      (h : ℕ) (os : List Operation)
      → let (c, outside) = operate_all pq os (new_connection, []) in
        (count h (destroy c).finished + count h outside ≡ count h (assigned os))
        × ((destroy c).handle ≡ none)
  unfolding destroy close release
  operate_all-handles h os =
      let (c, outside) = operate_all pq os (new_connection, []) in
      let t = operate_all-total h os new_connection [] in
      let f = finish-count h c.handle c.finished in (omega (arith, t, f), refl)

  abbrev socket_of : Option ℕ → Option ℕ
  socket_of none = none
  socket_of (some handle) = pq.socket handle

  assign_socket-socket :
      (fd : Option ℕ) (handle : ℕ) (c : Connection)
      → pq.socket handle ≡ fd
      → c.socket ≡ socket_of c.handle
      → (assign_socket fd handle c).0.socket ≡ socket_of (assign_socket fd handle c).0.handle
  unfolding assign_socket
  assign_socket-socket none handle c e h = h
  assign_socket-socket (some fd) handle c e h = sym e

  -- A connection's socket holds the descriptor of its handle, and none when it has no handle, whatever was
  -- done with the connection.
  pub operate_all-socket :
      (os : List Operation) (c : Connection) (outside : List ℕ)
      → c.socket ≡ socket_of c.handle
      → (operate_all pq os (c, outside)).0.socket
        ≡ socket_of (operate_all pq os (c, outside)).0.handle
  unfolding operate_all operate assign release close
  operate_all-socket [] c outside h = h
  operate_all-socket (assigns handle ∷ os) c outside h =
      operate_all-socket os (assign_socket (pq.socket handle) handle c).0
        (kept handle (assign_socket (pq.socket handle) handle c).1 outside)
        (assign_socket-socket (pq.socket handle) handle c refl h)
  operate_all-socket (releases ∷ os) c outside h =
      operate_all-socket os (release c).0 (finish c.handle outside) refl
  operate_all-socket (closes ∷ os) c outside h = operate_all-socket os (close c) outside refl
