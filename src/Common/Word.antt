-- ===== src/Common/Word.antt =====
-- Machine integers. A w-bit integer, signed or not, is its bit pattern, a number below 2 ^ w. The
-- host is little-endian, which `std::byteswap` in the program supposes.
use Prim.Native.Nat.{ℕ, zero, suc, ◌+◌, ◌-◌, ◌*◌, ◌/◌, ◌%◌, ◌^◌, ◌<◌}
use mathlib.Core.Path.{◌≡◌, refl, sym, ap, ap₂, ◌∙◌}
use mathlib.Core.Bool.{Bool, true, false, ◌&&◌}
use mathlib.Core.List.{List, [], ◌∷◌, reverse, reverse-append, reverse-reverse}
use native.Mathlib.Omega.{arith}
use native.Mathlib.Nat.{pow-suc}
use codecrafters_kafka_cpp.Common.Tests.{ltb, leb, if◌then◌else◌}
use codecrafters_kafka_cpp.Common.Lists.{length, length-append, All, All-append}

abbrev pub IsByte : ℕ → Type 0
IsByte b = b < 256

abbrev pub Bytes : Type 0
Bytes = List ℕ

-- `negsuc n` is -(n + 1).
pub data ℤ : Type 0 where
  pos : ℕ → ℤ
  negsuc : ℕ → ℤ

-- The integer that a pattern of `w` bits stands for in two's complement.
abbrev pub signed : ℕ → ℕ → ℤ
signed w v = if ltb v (2 ^ (w - 1)) then pos v else negsuc (2 ^ w - v - 1)

abbrev pub leb_ℤ : ℤ → ℤ → Bool
leb_ℤ (pos a) (pos b) = leb a b
leb_ℤ (pos a) (negsuc b) = false
leb_ℤ (negsuc a) (pos b) = true
leb_ℤ (negsuc a) (negsuc b) = leb b a

-- `v > 0` for a signed `v` of `w` bits.
abbrev pub is_positive : ℕ → ℕ → Bool
is_positive w v = ltb 0 v && ltb v (2 ^ (w - 1))

-- The conversion of an `int32_t` to `size_t`.
abbrev pub to_size : ℕ → ℕ
to_size v = if ltb v (2 ^ 31) then v else v + (2 ^ 64 - 2 ^ 32)

-- The object representation of an unsigned value in `n` bytes, and the value of one.
unfoldable pub le_bytes : ℕ → ℕ → Bytes
le_bytes zero v = []
le_bytes (suc n) v = (v % 256) ∷ le_bytes n (v / 256)

unfoldable pub from_le : Bytes → ℕ
from_le [] = 0
from_le (b ∷ bs) = b + 256 * from_le bs

-- `std::byteswap` of an integer of `n` bytes.
unfoldable pub byteswap : ℕ → ℕ → ℕ
unfolding le_bytes from_le
byteswap n v = from_le (reverse (le_bytes n v))

-- The big-endian form, most significant byte first.
unfoldable pub be_bytes : ℕ → ℕ → Bytes
unfolding le_bytes
be_bytes n v = reverse (le_bytes n v)

pub length-reverse {ℓ} : {A : Type ℓ} (xs : List A) → length (reverse xs) ≡ length xs
length-reverse [] = refl
length-reverse (x ∷ xs) = omega (
  arith,
  ap length (reverse-append (x ∷ []) xs),
  length-append (reverse xs) (x ∷ []),
  length-reverse xs,
)

pub All-reverse {ℓ κ} : {A : Type ℓ} (P : A → Type κ) (xs : List A) → All P xs → All P (reverse xs)
All-reverse P [] h = h
All-reverse P (x ∷ xs) h =
    rw (reverse-append (x ∷ []) xs)
      (All-append P (reverse xs) (x ∷ []) (All-reverse P xs h.1) (h.0, tt))

pub length-le_bytes : (n v : ℕ) → length (le_bytes n v) ≡ n
unfolding le_bytes
length-le_bytes zero v = refl
length-le_bytes (suc n) v = ap suc (length-le_bytes n (v / 256))

le_bytes-IsByte : (n v : ℕ) → All IsByte (le_bytes n v)
unfolding le_bytes
le_bytes-IsByte zero v = tt
le_bytes-IsByte (suc n) v = (omega arith, le_bytes-IsByte n (v / 256))

from_le-le_bytes : (n v : ℕ) → v < 256 ^ n → from_le (le_bytes n v) ≡ v
unfolding le_bytes from_le
from_le-le_bytes zero v h = omega arith
from_le-le_bytes (suc n) v h = ground (arith, pow-suc 256 n, from_le-le_bytes n (v / 256))

le_bytes-from_le : (bs : Bytes) → All IsByte bs → le_bytes (length bs) (from_le bs) ≡ bs
unfolding le_bytes from_le
le_bytes-from_le [] h = refl
le_bytes-from_le (b ∷ bs) h =
    ap₂ (λ (x : ℕ) (r : Bytes). x ∷ r) (omega (arith, h.0))
      (rw (quotient) (le_bytes-from_le bs h.1))
  where
    quotient : (b + 256 * from_le bs) / 256 ≡ from_le bs
    quotient = omega (arith, h.0)

from_le-lt : (bs : Bytes) → All IsByte bs → from_le bs < 256 ^ length bs
unfolding from_le
from_le-lt [] h = omega arith
from_le-lt (b ∷ bs) h = omega (arith, pow-suc 256 (length bs), from_le-lt bs h.1, h.0)

pub length-be_bytes : (n v : ℕ) → length (be_bytes n v) ≡ n
unfolding be_bytes
length-be_bytes n v = length-reverse (le_bytes n v) ∙ length-le_bytes n v

pub be_bytes-IsByte : (n v : ℕ) → All IsByte (be_bytes n v)
unfolding be_bytes
be_bytes-IsByte n v = All-reverse IsByte (le_bytes n v) (le_bytes-IsByte n v)

le_bytes-from_le_be : (n v : ℕ) → le_bytes n (from_le (be_bytes n v)) ≡ be_bytes n v
le_bytes-from_le_be n v =
    ap (λ (k : ℕ). le_bytes k (from_le (be_bytes n v))) (sym (length-be_bytes n v))
    ∙ le_bytes-from_le (be_bytes n v) (be_bytes-IsByte n v)

-- The swapped value in memory is the big-endian form of the value.
pub le_bytes-byteswap : (n v : ℕ) → le_bytes n (byteswap n v) ≡ be_bytes n v
unfolding byteswap be_bytes
le_bytes-byteswap n v = le_bytes-from_le_be n v

-- Reading the big-endian form into memory and swapping gives the value.
pub byteswap-from_le : (n v : ℕ) → v < 256 ^ n → byteswap n (from_le (be_bytes n v)) ≡ v
unfolding byteswap be_bytes
byteswap-from_le n v h =
    ap (λ (bs : Bytes). from_le (reverse bs)) (le_bytes-from_le_be n v)
    ∙ ap from_le (reverse-reverse (le_bytes n v))
    ∙ from_le-le_bytes n v h

-- A swapped value fits its width again.
pub byteswap-lt : (n v : ℕ) → byteswap n v < 256 ^ n
unfolding byteswap be_bytes
byteswap-lt n v = rw (length-be_bytes n v) at (from_le-lt (be_bytes n v) (be_bytes-IsByte n v))
