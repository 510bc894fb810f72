-- ===== src/Io/Stream.antt =====
-- io/istream.h: a stream over the bytes that are left, with the flag that a read came up short.
use ozo_pg.Base.{ℕ, List, Bool, false, not, ◌||◌, ◌==◌, if◌then◌else◌, length, take, drop}
use ozo_pg.Io.Endian.{from_network}

-- The errors that the receiving side throws: the codes of `ozo::error` that it uses,
-- `std::invalid_argument` for an unexpected null, `std::range_error`, and the `std::length_error`
-- of a `resize` to a negative size.
pub data IoError : Type 0 where
  unexpected_eof oid_type_mismatch bad_object_size bad_array_size bad_array_dimension : IoError
  bad_composite_size unexpected_null range_error length_error : IoError

pub data Result {ℓ} (A : Type ℓ) : Type ℓ where
  ok : A → Result A
  err : IoError → Result A

infixl 5 ◌>>=◌
abbrev pub ◌>>=◌ {ℓ κ} : {A : Type ℓ} {B : Type κ} → Result A → (A → Result B) → Result B
ok a >>= f = f a
err e >>= f = err e

pub record Istream : Type 0 where
  pub rest : List ℕ
  pub is_eof : Bool

abbrev pub stream : List ℕ → Istream
stream bs = record { rest = bs; is_eof = false }

-- `read(buf, len)`: what is there is taken, and a short read sets the flag for good.
unfoldable pub read : ℕ → Istream → List ℕ × Istream
read len s = (
  take len s.rest,
  record { rest = drop len s.rest; is_eof = s.is_eof || not (length (take len s.rest) == len) },
)

-- An integer of any width. After a short read its value is of no account.
unfoldable pub read_integral : ℕ → Istream → ℕ × Istream
read_integral w s = let (bs, after) = read w s in (from_network w bs, after)

unfoldable pub read_bool : Istream → Bool × Istream
read_bool s = let (tmp, after) = read_integral 1 s in (not (tmp == 0), after)

-- `ozo::read` throws once the flag is set.
abbrev pub checked {ℓ} : {A : Type ℓ} → A × Istream → Result (A × Istream)
checked (a, s) = if s.is_eof then err unexpected_eof else ok (a, s)
