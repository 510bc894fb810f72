-- ===== src/Io/Query/Values.antt =====
-- The value that libpq reads through each pointer of a query.
use ozo_pg.Base.{
  ℕ, ◌^◌, ◌<◌, ◌≡◌, refl, List, [], ◌∷◌, ◌++◌, Option, none, some, length, take, drop,
}
use ozo_pg.Io.SizeOf.{size_of, size_of_impl}
use ozo_pg.Io.Send.{send, send_impl, write_raw}
use ozo_pg.Io.Send.Wire.{wire, IsSendable}
use ozo_pg.Io.Query.{lengths_of, send_params, values_from, make_binary_query}
use ozo_pg.Io.Types.{
  Presence, required, nullable, Slot, OidMap, PgType, Fields, end, field, El, Els, text, TypeOid,
}

-- What stands at a pointer: a null pointer is a null value.
abbrev pub pointed : List ℕ → ℕ → Option ℕ → Option (List ℕ)
pointed buffer l none = none
pointed buffer l (some offset) = some (take l (drop offset buffer))

abbrev pub pointed_all : List ℕ → List ℕ → List (Option ℕ) → List (Option (List ℕ))
pointed_all buffer (l ∷ ls) (p ∷ ps) = pointed buffer l p ∷ pointed_all buffer ls ps
pointed_all buffer _ _ = []

-- The bytes of a parameter: none if it is null.
abbrev pub bytes_of : OidMap → (p : Presence) (t : PgType) → Slot p (El t) → List ℕ
bytes_of oids required t v = wire oids t v
bytes_of oids nullable t none = []
bytes_of oids nullable t (some v) = wire oids t v

abbrev pub non_empty : List ℕ → Option (List ℕ)
non_empty [] = none
non_empty (b ∷ bs) = some (b ∷ bs)

abbrev pub sent_values : OidMap → (fs : Fields) → Els fs → List (Option (List ℕ))
sent_values oids end v = []
sent_values oids (field p t fs) v = non_empty (bytes_of oids p t v.0) ∷ sent_values oids fs v.1

module _ (oids : OidMap) (t : PgType) where
  abbrev Fits : El t → Type 0
  Fits v = IsSendable oids t v × (length (wire oids t v) < 2 ^ 31)

bytes_all : OidMap → (fs : Fields) → Els fs → List ℕ
bytes_all oids end v = []
bytes_all oids (field p t fs) v = bytes_of oids p t v.0 ++ bytes_all oids fs v.1

-- A query whose only parameter is an empty text differs in nothing from the query whose parameter is a
-- null text: the server is sent a null.
pub make_binary_query-empty_text :
    (oids : OidMap) (query : List ℕ) (o : TypeOid)
    → make_binary_query oids query (field nullable (text o) end) (some [], tt)
      ≡ make_binary_query oids query (field nullable (text o) end) (none, tt)
unfolding make_binary_query send_params send send_impl write_raw lengths_of size_of size_of_impl
    values_from
make_binary_query-empty_text oids query o = refl
