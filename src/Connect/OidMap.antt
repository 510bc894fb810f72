-- ===== src/Connect/OidMap.antt =====
-- impl/request_oid_map.h and type_traits.h: the oids of the custom types, which the server gives.
pub mod Assigned
use ozo_pg.Base.{
  ℕ, suc, ◌↔◌, ◌≡◌, refl, sym, ap, ◌∙◌, subst, inl, inr, List, [], ◌∷◌, Option, none, some, Bool,
  true, false, true≢false, if◌then◌else◌, ◌==◌, ==→eq, ==_refl, ==-false_of_ne, Bool-cases, length,
  arith,
}
use ozo_pg.Error.{OzoError, ErrorCode, ozo_error}
use ozo_pg.Io.Types.{OidMap, PgType, type_oid}
use ozo_pg.Query.Names.{IsIn}
use ozo_pg.Query.Builder.{QueryElement, plus, plus_value, sql}
use ozo_pg.Query.{literal}

-- `set_type_oid`
unfoldable pub set_type_oid : ℕ → ℕ → OidMap → OidMap
set_type_oid key oid oids k = if k == key then oid else oids k

-- `oid_map_t`: the keys of its types, in the order of the map, and the oid of each.
pub record OidMapT : Type 0 where
  pub keys : List ℕ
  pub impl : OidMap

-- `register_types`: all oids are null.
unfoldable pub register_types : List ℕ → OidMapT
register_types keys = record { keys = keys; impl = λ k. 0 }

unfoldable pub accepts_oid : OidMap → PgType → ℕ → Bool
unfolding type_oid
accepts_oid oids t oid = type_oid oids t == oid

-- `make_oids_query`, over the names of the types.
unfoldable pub make_oids_query : List (List ℕ) → List (QueryElement (List (List ℕ)))
unfolding plus plus_value sql
make_oids_query names =
    plus
      (plus_value (sql (literal "SELECT COALESCE(to_regtype(f)::oid, 0) AS oid FROM UNNEST("))
        names)
      (sql (literal ") AS f"))

-- What `set_oid_map` throws: `std::length_error`, and `std::invalid_argument` for a type.
pub data OidFailure : Type 0 where
  length_error : OidFailure
  invalid_argument : ℕ → OidFailure

-- The loop over the keys, with the iterator over the result: the oids before a null one stay set.
unfoldable pub set_each : List ℕ → List ℕ → OidMap → OidMap × Option OidFailure
unfolding set_type_oid
set_each [] res oids = (oids, none)
set_each (k ∷ ks) [] oids = (oids, none)
set_each (k ∷ ks) (r ∷ rs) oids =
    let rest = set_each ks rs (set_type_oid k r oids) in
    if r == 0 then (oids, some (invalid_argument k)) else rest

unfoldable pub set_oid_map : OidMapT → List ℕ → OidMapT × Option OidFailure
unfolding set_each
set_oid_map m res =
    let (oids, failure) = set_each m.keys res m.impl in
    if length m.keys == length res
    then (record m { impl = oids }, failure)
    else (m, some length_error)

-- `request_oid_map_op::operator ()`: the error that the handler is called with.
unfoldable pub on_failure : Option OidFailure → Option ErrorCode
on_failure none = none
on_failure (some failure) = some (ozo_error OzoError.oid_request_failed)

-- The map, the failure whose message becomes the error context, and the error.
abbrev pub OidEnd : Type 0
OidEnd = OidMapT × Option OidFailure × Option ErrorCode

unfoldable pub on_oids : Option ErrorCode → OidMapT → List ℕ → OidEnd
unfolding set_oid_map on_failure
on_oids (some ec) m res = (m, none, some ec)
on_oids none m res = let (m', failure) = set_oid_map m res in (m', failure, on_failure failure)

-- `request_oid_map_handler::operator ()`, which is put in front of the handler of a connect operation if the
-- map is not empty: on what the connect operation and the request for the oids give.
unfoldable pub on_connected : Option ErrorCode → Option ErrorCode × List ℕ → OidMapT → OidEnd
unfolding on_oids
on_connected (some ec) request m = (m, none, some ec)
on_connected none (ec, res) m = on_oids ec m res

-- `apply_oid_map_request`
unfoldable pub connected_at :
    List ℕ → Option ErrorCode → Option ErrorCode × List ℕ → OidMapT → OidEnd
unfolding on_connected
connected_at [] ec request m = (m, none, ec)
connected_at (k ∷ ks) ec request m = on_connected ec request m

unfoldable pub connected_with_oids : Option ErrorCode → Option ErrorCode × List ℕ → OidMapT → OidEnd
unfolding connected_at
connected_with_oids ec request m = connected_at m.keys ec request m
