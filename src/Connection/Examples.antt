-- ===== src/Connection/Examples.antt =====
-- A connection on which handles come and go.
use ozo_pg.Base.{◌+◌, ◌≡◌, refl, List, [], ◌∷◌, none, some, ltb, if◌then◌else◌}
use ozo_pg.Connection.{Libpq, ConnStatus, PgTransactionStatus, Connection, new_connection, destroy}
use ozo_pg.Connection.Handles.{
  Operation, assigns, releases, operate_all, assigned, count, operate_all-handles,
}
use ozo_pg.Connection.Message.{error_message}
use ozo_pg.Query.{literal}

-- A handle below 10 is well and has a socket.
abbrev pub small : Libpq
small = record {
  status = λ h. if ltb h 10 then ConnStatus.connection_ok else ConnStatus.connection_bad;
  transaction_status = λ o. elim o [
    | none ↦ PgTransactionStatus.pqtrans_unknown
    | some h ↦ PgTransactionStatus.pqtrans_idle
  ];
  socket = λ h. if ltb h 10 then some (100 + h) else none;
  error_message = λ o. literal "no route  ";
}

-- The second handle replaces the first, the third is refused, and the second is released.
abbrev operations : List Operation
operations = assigns 1 ∷ assigns 2 ∷ assigns 30 ∷ releases ∷ assigns 4 ∷ []

operate_all-handles_example :
    let (c, outside) = operate_all small operations (new_connection, []) in
    (count 4 (destroy c).finished + count 4 outside ≡ count 4 (assigned operations))
    × ((destroy c).handle ≡ none)
operate_all-handles_example = operate_all-handles small 4 operations

left_outside : (operate_all small operations (new_connection, [])).1 ≡ 2 ∷ 30 ∷ []
unfolding operate_all
left_outside = refl

abbrev held : Connection
held = record { handle = some 1; socket = some 101; error_context = []; finished = [] }

message : error_message small (some held) ≡ literal "no route"
unfolding error_message
message = refl
