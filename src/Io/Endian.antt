-- ===== src/Io/Endian.antt =====
-- detail/endian.h and detail/typed_buffer.h: integers as bytes in network order.
use ozo_pg.Base.{
  ℕ, zero, suc, ◌+◌, ◌*◌, ◌/◌, ◌%◌, ◌^◌, ◌<◌, ◌≡◌, refl, ap, ◌∙◌, List, [], ◌∷◌, ◌++◌, length,
  length-append, arith,
}
use native.Mathlib.Nat.{pow-suc}

-- `((value >> N * 8 & 255) << (sizeof(T) - 1 - N) * 8) | ...` for N = 0 .. w - 1. The terms share no
-- bit, so the disjunction is a sum.
pub byte_order_swap : ℕ → ℕ → ℕ
byte_order_swap zero v = 0
byte_order_swap (suc w) v = v % 256 * 256 ^ w + byte_order_swap w (v / 256)

-- The bytes of `typed_buffer` on a little-endian machine, lowest address first.
pub raw : ℕ → ℕ → List ℕ
raw zero v = []
raw (suc w) v = v % 256 ∷ raw w (v / 256)

pub typed : List ℕ → ℕ
typed [] = 0
typed (b ∷ bs) = b + 256 * typed bs

-- The reference: base 256, highest digit first.
unfoldable pub big_endian : ℕ → ℕ → List ℕ
big_endian zero v = []
big_endian (suc w) v = big_endian w (v / 256) ++ (v % 256 ∷ [])

pub length-big_endian : (w v : ℕ) → length (big_endian w v) ≡ w
unfolding big_endian
length-big_endian zero v = refl
length-big_endian (suc w) v =
    omega
      (arith, length-append (big_endian w (v / 256)) (v % 256 ∷ []), length-big_endian w (v / 256))

scale_lt : (d p s : ℕ) → d < 256 → s < p → d * p + s < 256 * p
scale_lt d p s hd hs = grind arith

pub byte_order_swap-lt : (w v : ℕ) → byte_order_swap w v < 256 ^ w
unfolding byte_order_swap
byte_order_swap-lt zero v = omega arith
byte_order_swap-lt (suc w) v = rw (pow-suc 256 w) (
    omega (
      arith,
      scale_lt (v % 256) (256 ^ w) (byte_order_swap w (v / 256)) (omega arith)
          (byte_order_swap-lt w (v / 256)),
    ))

-- A digit added at the top does not change the lower ones.
low_digit : (d p x : ℕ) → (d * (p * 256) + x) % 256 ≡ x % 256
low_digit d p x = omega arith

upper_digits : (d p x : ℕ) → (d * (p * 256) + x) / 256 ≡ d * p + x / 256
upper_digits d p x = omega arith

upper-lt : (w x : ℕ) → x < 256 ^ suc w → x / 256 < 256 ^ w
upper-lt w x h = let h' : x < 256 ^ w * 256 = rw (← pow-suc 256 w) h in omega arith

raw_snoc : (w x d : ℕ) → x < 256 ^ w → d < 256 → raw (suc w) (d * 256 ^ w + x) ≡ raw w x ++ (d ∷ [])
unfolding raw
raw_snoc zero x d hx hd = ap (λ n. n ∷ []) (omega arith)
raw_snoc (suc w) x d hx hd =
    rw (pow-suc 256 w, low_digit d (256 ^ w) x, upper_digits d (256 ^ w) x)
      (ap (◌∷◌ (x % 256)) (raw_snoc w (x / 256) d (upper-lt w x hx) hd))

-- The bytes that `ostream::write` appends for an integer are its base-256 digits, highest first.
pub raw-byte_order_swap : (w v : ℕ) → raw w (byte_order_swap w v) ≡ big_endian w v
unfolding byte_order_swap big_endian
raw-byte_order_swap zero v = unfold raw in refl
raw-byte_order_swap (suc w) v =
    raw_snoc w (byte_order_swap w (v / 256)) (v % 256) (byte_order_swap-lt w (v / 256))
      (omega arith)
    ∙ ap (λ l. l ++ (v % 256 ∷ [])) (raw-byte_order_swap w (v / 256))

-- What `istream::read` makes of the bytes of a wide integer.
pub from_network : ℕ → List ℕ → ℕ
from_network w bs = byte_order_swap w (typed bs)

typed_snoc : (bs : List ℕ) (d : ℕ) → typed (bs ++ (d ∷ [])) ≡ d * 256 ^ length bs + typed bs
unfolding typed
typed_snoc [] d = omega arith
typed_snoc (b ∷ bs) d = rw (typed_snoc bs d, pow-suc 256 (length bs)) (omega arith)

byte_order_swap_snoc :
    (w x d : ℕ)
    → x < 256 ^ w
    → d < 256
    → byte_order_swap (suc w) (d * 256 ^ w + x) ≡ d + 256 * byte_order_swap w x
unfolding byte_order_swap
byte_order_swap_snoc zero x d hx hd = omega arith
byte_order_swap_snoc (suc w) x d hx hd =
    rw
      (
        pow-suc 256 w,
        low_digit d (256 ^ w) x,
        upper_digits d (256 ^ w) x,
        byte_order_swap_snoc w (x / 256) d (upper-lt w x hx) hd,
      )
      (omega arith)

typed-lt : (w v : ℕ) → typed (big_endian w v) < 256 ^ w
unfolding typed big_endian
typed-lt zero v = omega arith
typed-lt (suc w) v =
    rw (typed_snoc (big_endian w (v / 256)) (v % 256), length-big_endian w (v / 256), pow-suc 256 w)
      (omega (
        arith,
        scale_lt (v % 256) (256 ^ w) (typed (big_endian w (v / 256))) (omega arith)
            (typed-lt w (v / 256)),
      ))

-- Reading back the bytes of a value that fits the width gives the value, for every width.
pub from_network-big_endian : (w v : ℕ) → v < 256 ^ w → from_network w (big_endian w v) ≡ v
unfolding from_network big_endian
from_network-big_endian zero v h = unfold typed byte_order_swap in omega arith
from_network-big_endian (suc w) v h =
    rw
      (
        typed_snoc (big_endian w (v / 256)) (v % 256),
        length-big_endian w (v / 256),
        byte_order_swap_snoc w (typed (big_endian w (v / 256))) (v % 256) (typed-lt w (v / 256))
            (omega arith),
      )
      (omega (arith, from_network-big_endian w (v / 256) (upper-lt w v h)))
