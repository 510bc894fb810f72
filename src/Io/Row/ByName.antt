-- ===== src/Io/Row/ByName.antt =====
-- The part of io/recv.h that receives a row into a structure, by the names of its columns.
use ozo_pg.Base.{
  ℕ, zero, suc, ◌≡◌, refl, List, [], ◌∷◌, Option, none, some, length, ◌==◌, ==_refl, if◌then◌else◌,
}
use ozo_pg.Io.Stream.{Result, ok, err, ◌>>=◌, range_error}
use ozo_pg.Io.Row.{Value, Row, recv_value}
use ozo_pg.Io.Row.RoundTrip.{sent_bytes, CanReturnAll, value_back}
use ozo_pg.Io.Types.{
  Presence, Slot, OidMap, PgType, Fields, end, field, El, Els, type_oid, fields_number,
  fresh_fields,
}

-- A row with the names of its columns.
pub record NamedRow : Type 0 where
  pub names : List (List ℕ)
  pub values : Row

abbrev nth : ℕ → Row → Option Value
nth i [] = none
nth zero (v ∷ row) = some v
nth (suc i) (v ∷ row) = nth i row

-- `PQfnumber` of the columns and a name, `none` for -1.
module _ (fnumber : List (List ℕ) → List ℕ → Option ℕ) where
  abbrev value_at : Option ℕ → Row → Option Value
  value_at none row = none
  value_at (some i) row = nth i row

  -- `row::find`
  unfoldable pub find : NamedRow → List ℕ → Option Value
  find row name = value_at (fnumber row.names name) row.values

  unfoldable pub recv_member :
      OidMap → (p : Presence) (t : PgType) → Option Value → Slot p (El t) → Result (Slot p (El t))
  recv_member oids p t none out = err range_error
  recv_member oids p t (some v) out = recv_value oids p t v out

  -- The loop over the members, each with its name.
  unfoldable pub recv_members :
      OidMap → (fs : Fields) → List (List ℕ) → NamedRow → Els fs → Result (Els fs)
  unfolding find recv_member
  recv_members oids end names row out = ok tt
  recv_members oids (field p t fs) [] row out = err range_error
  recv_members oids (field p t fs) (name ∷ names) row out = do
    item ← recv_member oids p t (find row name) out.0
    items ← recv_members oids fs names row out.1
    ok (item, items)

  -- `recv_row` into a structure whose members have these names.
  unfoldable pub recv_struct :
      OidMap → (fs : Fields) → List (List ℕ) → NamedRow → Els fs → Result (Els fs)
  unfolding recv_members
  recv_struct oids fs names row out =
      if fields_number fs == length row.values
      then recv_members oids fs names row out
      else err range_error

  -- For each member there is a column of its name, and this column holds the member as it was sent.
  abbrev pub Holds : OidMap → (fs : Fields) → List (List ℕ) → NamedRow → Els fs → Type 0
  Holds oids end names row v = Unit
  Holds oids (field p t fs) [] row v = ⊥
  Holds oids (field p t fs) (name ∷ names) row v =
      (find row name ≡ some (record { oid = type_oid oids t; bytes = sent_bytes oids p t v.0 }))
      × Holds oids fs names row v.1

  members_back :
      (oids : OidMap) (fs : Fields) (names : List (List ℕ)) (row : NamedRow) (v : Els fs)
      → CanReturnAll oids fs v
      → Holds oids fs names row v
      → recv_members oids fs names row (fresh_fields fs) ≡ ok v
  unfolding recv_members recv_member
  members_back oids end names row v h held = refl
  members_back oids (field p t fs) [] row v h held = absurd held
  members_back oids (field p t fs) (name ∷ names) row v h held =
      rw (held.0, value_back oids t p v.0 h.0, members_back oids fs names row v.1 h.1 held.1) refl

  -- A row that has as many columns as a structure has members, and for each member a column of its name with
  -- the member as it was sent, is received as that structure, whatever the order of the columns is, where
  -- each member can be sent, can be held by a receiver and fits a frame.
  pub recv_struct-sent :
      (oids : OidMap) (fs : Fields) (names : List (List ℕ)) (row : NamedRow) (v : Els fs)
      → CanReturnAll oids fs v
      → length row.values ≡ fields_number fs
      → Holds oids fs names row v
      → recv_struct oids fs names row (fresh_fields fs) ≡ ok v
  unfolding recv_struct
  recv_struct-sent oids fs names row v h size held =
      rw (size, ==_refl (fields_number fs)) (members_back oids fs names row v h held)
