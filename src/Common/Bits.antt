-- ===== src/Common/Bits.antt =====
-- The bit operations of the program's words as arithmetic. Each operation has a law for its lowest
-- digit, from the definition that the native operation stands for; the rest is by induction.
use Prim.Native.Nat.{
  ℕ, zero, suc, ◌+◌, ◌-◌, ◌*◌, ◌/◌, ◌%◌, ◌^◌, ◌≤◌, ◌<◌, min, max, bit_and, bit_or, bit_xor, digits,
  differ, bit_and-bitwise, bit_or-bitwise, bit_xor-bitwise,
}
use mathlib.Core.Path.{◌≡◌, refl, ap}
use mathlib.Core.Bool.{Bool, true, ◌&&◌}
use native.Mathlib.Omega.{arith}
use native.Mathlib.Nat.{pow-suc, one-le-pow}
use codecrafters_kafka_cpp.Common.Tests.{◌==◌}

-- A count of rounds that covers the first number may be replaced by any other.
rounds_irrelevant :
    (z : ℕ → ℕ) (f : ℕ → ℕ → ℕ) (a b j k : ℕ) → a ≤ j → a ≤ k → digits z f j a b ≡ digits z f k a b
rounds_irrelevant z f zero b zero zero hj hk = refl
rounds_irrelevant z f zero b zero (suc k) hj hk = refl
rounds_irrelevant z f zero b (suc j) zero hj hk = refl
rounds_irrelevant z f zero b (suc j) (suc k) hj hk = refl
rounds_irrelevant z f (suc a) b zero k hj hk = absurd (omega arith)
rounds_irrelevant z f (suc a) b (suc j) zero hj hk = absurd (omega arith)
rounds_irrelevant z f (suc a) b (suc j) (suc k) hj hk =
    omega (arith, rounds_irrelevant z f (suc a / 2) (b / 2) j k (omega arith) (omega arith))

bit_and-halves : (a b : ℕ) → bit_and a b ≡ bit_and (a / 2) (b / 2) * 2 + min (a % 2) (b % 2)
bit_and-halves zero b = omega (arith, bit_and-bitwise 0 b, bit_and-bitwise 0 (b / 2))
bit_and-halves (suc a) b = omega (
  arith,
  bit_and-bitwise (suc a) b,
  bit_and-bitwise (suc a / 2) (b / 2),
  rounds_irrelevant (λ y. 0) min (suc a / 2) (b / 2) a (suc a / 2) (omega arith) (omega arith),
)

bit_or-halves : (a b : ℕ) → bit_or a b ≡ bit_or (a / 2) (b / 2) * 2 + max (a % 2) (b % 2)
bit_or-halves zero b = omega (arith, bit_or-bitwise 0 b, bit_or-bitwise 0 (b / 2))
bit_or-halves (suc a) b = omega (
  arith,
  bit_or-bitwise (suc a) b,
  bit_or-bitwise (suc a / 2) (b / 2),
  rounds_irrelevant (λ y. y) max (suc a / 2) (b / 2) a (suc a / 2) (omega arith) (omega arith),
)

differ_bits : (x y : ℕ) → x < 2 → y < 2 → differ x y ≡ (x + y) % 2
differ_bits zero y hx hy = omega arith
differ_bits (suc zero) zero hx hy = refl
differ_bits (suc zero) (suc zero) hx hy = refl
differ_bits (suc zero) (suc (suc y)) hx hy = absurd (omega arith)
differ_bits (suc (suc x)) y hx hy = absurd (omega arith)

bit_xor-halves : (a b : ℕ) → bit_xor a b ≡ bit_xor (a / 2) (b / 2) * 2 + (a % 2 + b % 2) % 2
bit_xor-halves zero b = omega (arith, bit_xor-bitwise 0 b, bit_xor-bitwise 0 (b / 2))
bit_xor-halves (suc a) b = omega (
  arith,
  bit_xor-bitwise (suc a) b,
  bit_xor-bitwise (suc a / 2) (b / 2),
  rounds_irrelevant (λ y. y) differ (suc a / 2) (b / 2) a (suc a / 2) (omega arith) (omega arith),
  differ_bits (suc a % 2) (b % 2) (omega arith) (omega arith),
)

bit_and-zero : (n a : ℕ) → a ≤ n → bit_and a 0 ≡ 0
bit_and-zero n zero h = refl
bit_and-zero zero (suc a) h = absurd (omega arith)
bit_and-zero (suc n) (suc a) h =
    omega (arith, bit_and-halves (suc a) 0, bit_and-zero n (suc a / 2) (omega arith))

-- A mask of ones is a remainder: one halving for each one.
pub bit_and_1 : (a : ℕ) → bit_and a 1 ≡ a % 2
bit_and_1 a = omega (arith, bit_and-halves a 1, bit_and-zero (a / 2) (a / 2) (omega arith))

bit_and_f : (a : ℕ) → bit_and a 0xf ≡ a % 16
bit_and_f a = omega (
  arith,
  bit_and-halves a 0xf,
  bit_and-halves (a / 2) 0x7,
  bit_and-halves (a / 2 / 2) 0x3,
  bit_and_1 (a / 2 / 2 / 2),
)

pub bit_and_7f : (a : ℕ) → bit_and a 0x7f ≡ a % 128
bit_and_7f a = omega (
  arith,
  bit_and-halves a 0x7f,
  bit_and-halves (a / 2) 0x3f,
  bit_and-halves (a / 2 / 2) 0x1f,
  bit_and_f (a / 2 / 2 / 2),
)

-- `a | (c << k)` is a sum where `a` fits `k` bits.
zero-bit_or : (b : ℕ) → bit_or 0 b ≡ b
zero-bit_or b = bit_or-bitwise 0 b

pub bit_or-shifted : (k a c : ℕ) → a < 2 ^ k → bit_or a (c * 2 ^ k) ≡ a + c * 2 ^ k
bit_or-shifted zero a c h =
    omega
      (arith, ap (λ (t : ℕ). bit_or t (c * 1)) {x = a} {y = 0} (omega arith), zero-bit_or (c * 1))
bit_or-shifted (suc k) a c h = ground (
  arith,
  bit_or-halves a (c * 2 ^ suc k),
  bit_or-shifted k (a / 2) c,
  ap (λ (t : ℕ). c * t) (pow-suc 2 k),
  pow-suc 2 k,
)

pub bit_or-lt : (k a b : ℕ) → a < 2 ^ k → b < 2 ^ k → bit_or a b < 2 ^ k
bit_or-lt zero a b ha hb =
    omega (arith, bit_or-shifted 0 a 0 ha, ap (λ (t : ℕ). bit_or a t) {x = b} {y = 0} (omega arith))
bit_or-lt (suc k) a b ha hb = omega (
  arith,
  bit_or-halves a b,
  pow-suc 2 k,
  bit_or-lt k (a / 2) (b / 2) (ground (arith, pow-suc 2 k)) (ground (arith, pow-suc 2 k)),
)

bit_xor-zero_below : (n a : ℕ) → a ≤ n → bit_xor a 0 ≡ a
bit_xor-zero_below n zero h = refl
bit_xor-zero_below zero (suc a) h = absurd (omega arith)
bit_xor-zero_below (suc n) (suc a) h =
    omega (arith, bit_xor-halves (suc a) 0, bit_xor-zero_below n (suc a / 2) (omega arith))

pub bit_xor-zero : (a : ℕ) → bit_xor a 0 ≡ a
bit_xor-zero a = bit_xor-zero_below a a (omega arith)

-- `a ^ (2 ^ k - 1)` is the complement of a `k`-bit number.
pub bit_xor-ones : (k a : ℕ) → a < 2 ^ k → bit_xor a (2 ^ k - 1) ≡ 2 ^ k - 1 - a
bit_xor-ones zero a h = omega (arith, bit_xor-zero a)
bit_xor-ones (suc k) a h =
    ground
      (arith, bit_xor-halves a (2 ^ suc k - 1), bit_xor-ones k (a / 2), pow-suc 2 k, one-le-pow k 2)

-- Facts about one byte, by evaluation of every value.
agree : ℕ → (ℕ → ℕ) → (ℕ → ℕ) → Bool
agree zero f g = true
agree (suc n) f g = f n == g n && agree n f g

agree→eq : (n : ℕ) (f g : ℕ → ℕ) (x : ℕ) → agree n f g ≡ true → x < n → f x ≡ g x
unfolding agree
agree→eq zero f g x e h = absurd (omega arith)
agree→eq (suc n) f g x e h = ground (arith, agree→eq n f g x)

pub bit_and_80 : (b : ℕ) → b < 256 → bit_and b 0x80 ≡ b / 128 * 128
unfolding agree
bit_and_80 b h = agree→eq 256 (λ x. bit_and x 0x80) (λ x. x / 128 * 128) b refl h

pub bit_or_80 : (b : ℕ) → b < 128 → bit_or b 0x80 ≡ b + 128
unfolding agree
bit_or_80 b h = agree→eq 128 (λ x. bit_or x 0x80) (λ x. x + 128) b refl h
