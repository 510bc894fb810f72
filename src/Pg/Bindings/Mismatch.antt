-- ===== src/Pg/Bindings/Mismatch.antt =====
-- io/recv.h with pg/definitions.h: a value of one type and an object of another.
use Prim.Native.String.{String}
use mathlib.Core.Option.{some-injective, none-ne-some}
use ozo_pg.Base.{
  ℕ, ◌^◌, ◌<◌, ◌≡◌, refl, sym, ap, ◌∙◌, ◌≢◌, List, [], Option, none, some, false, length, ◌==◌,
  ==_refl, ==-false_of_ne,
}
use ozo_pg.Io.Types.{
  OidMap, Presence, required, nullable, PgType, El, Slot, oid_of, built_in, type_oid,
}
use ozo_pg.Io.Stream.{Istream, stream, err, oid_type_mismatch, bad_object_size}
use ozo_pg.Io.Recv.{recv, recv_impl, recv_static}
use ozo_pg.Io.Recv.Frames.{ne_null}
use ozo_pg.Io.Send.{send_impl}
use ozo_pg.Io.Row.{recv_value}
use ozo_pg.Pg.Owners.{Named, of_type, oid_named, oid_named-injective}
use ozo_pg.Pg.{type_definition}
use ozo_pg.Pg.Definition.{TypeDefinition, TypeSize, dynamic_size, null_size, bytes}
use ozo_pg.Pg.Bindings.{CppType, bound_name, bound_oid, pg_type}

recv_value-mismatch :
    (oids : OidMap) (p : Presence) (t : PgType) (oid : ℕ) (bs : List ℕ) (out : Slot p (El t))
    → (type_oid oids t ≡ oid → ⊥)
    → length bs < 2 ^ 31
    → recv_value oids p t (record { oid = oid; bytes = some bs }) out ≡ err oid_type_mismatch
unfolding recv_value recv
recv_value-mismatch oids required t oid bs out ne fits = rw (==-false_of_ne _ _ ne) refl
recv_value-mismatch oids nullable t oid bs out ne fits =
    rw (==-false_of_ne _ _ ne, ne_null _ fits) refl

type_oid-built_in :
    (oids : OidMap) (t : PgType) (o : ℕ) → oid_of t ≡ built_in o → type_oid oids t ≡ o
unfolding type_oid
type_oid-built_in oids t o is = rw (is, type_oid) refl

-- A value that is not null, of a column whose built-in type is not the one that the type of an object is
-- defined as, is refused by the object, whether the object can be null or not, and whatever it held.
pub recv_value-other_type :
    (oids : OidMap) (p : Presence) (t : PgType) (own other : Named) (o o' : ℕ) (bs : List ℕ)
    (out : Slot p (El t))
    → oid_of t ≡ built_in o
    → oid_named own ≡ some o
    → oid_named other ≡ some o'
    → own ≢ other
    → length bs < 2 ^ 31
    → recv_value oids p t (record { oid = o'; bytes = some bs }) out ≡ err oid_type_mismatch
recv_value-other_type oids p t own other o o' bs out is named named' ne fits =
    recv_value-mismatch oids p t o' bs out
      (λ same. ne (
        oid_named-injective own other o named
          (named' ∙ ap some (sym same ∙ type_oid-built_in oids t o is))))
      fits

bound_named : (c : CppType) → oid_named (of_type (bound_name c)) ≡ some (bound_oid c)
unfolding bound_name bound_oid type_definition ozo_pg.Pg.definitions
bound_named CppType.int8 = refl
bound_named _ = refl

oid_of-pg_type : (c : CppType) → oid_of (pg_type c) ≡ built_in (bound_oid c)
oid_of-pg_type CppType.int8 = refl
oid_of-pg_type _ = refl

of_type-injective : (a b : String) → Path Named (of_type a) (of_type b) → a ≡ b
of_type-injective a b h = cc

-- Among fourteen C++ types (numbers, booleans, texts, bytes, names, oids, json and jsonb): what was sent as an
-- object of one, is not null and has less than 2^31 bytes is refused by an object of every other one that
-- is bound to another type of PostgreSQL, whether the object can be null or not, and whatever it held.
pub recv_value-bound :
    (oids : OidMap) (sender receiver : CppType) (p : Presence) (v : El (pg_type sender))
    (out : Slot p (El (pg_type receiver)))
    → bound_name receiver ≢ bound_name sender
    → length (send_impl oids (pg_type sender) [] v) < 2 ^ 31
    → recv_value oids p
        (pg_type receiver)
        (record {
          oid = type_oid oids (pg_type sender);
          bytes = some (send_impl oids (pg_type sender) [] v);
        })
        out
      ≡ err oid_type_mismatch
recv_value-bound oids sender receiver p v out ne fits =
    rw (type_oid-built_in oids (pg_type sender) (bound_oid sender) (oid_of-pg_type sender)) (
      recv_value-other_type oids p (pg_type receiver) (of_type (bound_name receiver))
        (of_type (bound_name sender)) (bound_oid receiver) (bound_oid sender) _ out
        (oid_of-pg_type receiver) (bound_named receiver) (bound_named sender)
        (λ same. ne (of_type-injective _ _ same)) fits)

abbrev pub bytes_of : TypeSize → Option ℕ
bytes_of dynamic_size = none
bytes_of null_size = none
bytes_of (bytes n) = some n

abbrev pub bytes_defined : Option TypeDefinition → Option ℕ
bytes_defined none = none
bytes_defined (some d) = bytes_of d.size

recv_static-other_size :
    {A : Type 0} (own n size : ℕ) (get : Istream → A × Istream) (s : Istream)
    → some own ≡ some n
    → (size == n) ≡ false
    → recv_static own size get s ≡ err bad_object_size
unfolding recv_static
recv_static-other_size own n size get s is ne = rw (some-injective own n is, ne) refl

static_recv :
    (oids : OidMap) (c : CppType) (n size : ℕ) (out : El (pg_type c)) (s : Istream)
    → bytes_defined (type_definition (bound_name c)) ≡ some n
    → (size == n) ≡ false
    → recv_impl oids (pg_type c) size out s ≡ err bad_object_size
unfolding bound_name type_definition ozo_pg.Pg.definitions recv_impl
static_recv oids CppType.int8 n size out s is ne = recv_static-other_size 8 n size _ s is ne
static_recv oids CppType.int4 n size out s is ne = recv_static-other_size 4 n size _ s is ne
static_recv oids CppType.int2 n size out s is ne = recv_static-other_size 2 n size _ s is ne
static_recv oids CppType.float8 n size out s is ne = recv_static-other_size 8 n size _ s is ne
static_recv oids CppType.float4 n size out s is ne = recv_static-other_size 4 n size _ s is ne
static_recv oids CppType.bool_t n size out s is ne = recv_static-other_size 1 n size _ s is ne
static_recv oids CppType.char_t n size out s is ne = recv_static-other_size 1 n size _ s is ne
static_recv oids CppType.string n size out s is ne = absurd (none-ne-some n is)
static_recv oids CppType.string_view n size out s is ne = absurd (none-ne-some n is)
static_recv oids CppType.bytea n size out s is ne = absurd (none-ne-some n is)
static_recv oids CppType.name n size out s is ne = absurd (none-ne-some n is)
static_recv oids CppType.json n size out s is ne = absurd (none-ne-some n is)
static_recv oids CppType.jsonb n size out s is ne = absurd (none-ne-some n is)
static_recv oids CppType.oid n size out s is ne = recv_static-other_size 4 n size _ s is ne

-- A value that is not null, of the column's type that a C++ type is bound to, is refused by an object of
-- the C++ type if its size is not the one that the definition of that type gives.
recv_value-bound_size :
    (oids : OidMap) (c : CppType) (n : ℕ) (p : Presence) (bs : List ℕ)
    (out : Slot p (El (pg_type c)))
    → bytes_defined (type_definition (bound_name c)) ≡ some n
    → length bs ≢ n
    → length bs < 2 ^ 31
    → recv_value oids p
        (pg_type c)
        (record { oid = type_oid oids (pg_type c); bytes = some bs })
        out
      ≡ err bad_object_size
unfolding recv_value recv
recv_value-bound_size oids c n required bs out is ne fits =
    rw
      (
        ==_refl (type_oid oids (pg_type c)),
        ne_null _ fits,
        static_recv oids c n (length bs) out (stream bs) is (==-false_of_ne _ _ ne),
      )
      refl
recv_value-bound_size oids c n nullable bs out is ne fits =
    rw
      (
        ==_refl (type_oid oids (pg_type c)),
        ne_null _ fits,
        static_recv oids c n (length bs) _ (stream bs) is (==-false_of_ne _ _ ne),
      )
      refl
