-- ===== src/Core/Hexdump/Widths.antt =====
-- The columns that escape sequences, lines and numbers take.
use codecrafters_kafka_cpp.Common.{
  ℕ, zero, suc, ◌+◌, ◌-◌, ◌*◌, ◌/◌, ◌%◌, ◌≤◌, ◌<◌, ◌≡◌, inl, inr, [], ◌∷◌, true, Bool-cases, All,
  All-append, length, length-append, ltb, arith,
}
use codecrafters_kafka_cpp.Common.Text.{digits}
use codecrafters_kafka_cpp.Core.Hexdump.{
  dim, reset, cyan, yellow, green, magenta, white, box_char, h_line, hex_digit, hex_digits, hex,
  repeat,
}
use codecrafters_kafka_cpp.Core.Hexdump.Terminal.{
  Shows, Shows-of_eq, ◌then_shows◌, Shows-nothing, Shows-byte, Shows-text, Shows-escape,
  Shows-three_bytes, IsPlain,
}

pub Shows-reset : Shows reset 0
Shows-reset = Shows-escape (91 ∷ 48 ∷ []) (omega arith)

pub Shows-dim : Shows dim 0
Shows-dim = Shows-escape (91 ∷ 50 ∷ []) (omega arith)

pub Shows-cyan : Shows cyan 0
Shows-cyan = Shows-escape (91 ∷ 51 ∷ 54 ∷ []) (omega arith)

pub Shows-yellow : Shows yellow 0
Shows-yellow = Shows-escape (91 ∷ 51 ∷ 51 ∷ []) (omega arith)

pub Shows-green : Shows green 0
Shows-green = Shows-escape (91 ∷ 51 ∷ 50 ∷ []) (omega arith)

pub Shows-magenta : Shows magenta 0
Shows-magenta = Shows-escape (91 ∷ 51 ∷ 53 ∷ []) (omega arith)

pub Shows-white : Shows white 0
Shows-white = Shows-escape (91 ∷ 57 ∷ 55 ∷ []) (omega arith)

pub Shows-box_char : (last : ℕ) → 128 ≤ last → last < 192 → Shows (box_char last) 1
Shows-box_char last h k =
    Shows-three_bytes 226 148 last (omega arith) (omega arith) (omega arith) h k

pub Shows-blank : Shows (b' ' ∷ []) 1
Shows-blank = Shows-byte b' ' (omega arith)

pub Shows-h_line : (width : ℕ) → Shows (h_line width) width
unfolding h_line
Shows-h_line zero = Shows-nothing
Shows-h_line (suc width) =
    Shows-of_eq (width + 1) (suc width) (omega arith)
      (Shows-h_line width then_shows Shows-box_char 128 (omega arith) (omega arith))

pub Shows-repeat : (n c : ℕ) → IsPlain c → Shows (repeat n c) n
unfolding repeat
Shows-repeat zero c h = Shows-nothing
Shows-repeat (suc n) c h =
    Shows-of_eq (1 + n) (suc n) (omega arith) (Shows-byte c h then_shows Shows-repeat n c h)

-- Decimal and hexadecimal digits.
digits-IsPlain : (k n : ℕ) → All IsPlain (digits k n)
unfolding digits
digits-IsPlain zero n = tt
digits-IsPlain (suc k) n = elim (Bool-cases (ltb n 10)) [
  | inl small ↦ rw small (omega arith, tt)
  | inr large ↦
      rw large
        (All-append IsPlain (digits k (n / 10)) _ (digits-IsPlain k (n / 10)) (omega arith, tt))
]

pub Shows-digits : (k n : ℕ) → Shows (digits k n) (length (digits k n))
Shows-digits k n = Shows-text (digits k n) (digits-IsPlain k n)

pub length-digits : (k n : ℕ) → length (digits k n) ≤ k
unfolding digits
length-digits zero n = omega arith
length-digits (suc k) n = elim (Bool-cases (ltb n 10)) [
  | inl small ↦ rw small (omega arith)
  | inr large ↦ rw large (
      omega
        (arith, length-digits k (n / 10), length-append (digits k (n / 10)) ((48 + n % 10) ∷ [])))
]

-- The letters of a hexadecimal digit start at "A" or "a".
abbrev IsTen : ℕ → Type 0
IsTen ten = (65 ≤ ten) × (ten ≤ 97)

hex_digit-IsPlain : (ten d : ℕ) → IsTen ten → d < 16 → IsPlain (hex_digit ten d)
unfolding hex_digit
hex_digit-IsPlain ten d h k = ground arith

hex_digits-IsPlain : (ten k n : ℕ) → IsTen ten → All IsPlain (hex_digits ten k n)
unfolding hex_digits
hex_digits-IsPlain ten zero n h = tt
hex_digits-IsPlain ten (suc k) n h = elim (Bool-cases (ltb n 16)) [
  | inl small ↦ rw small (hex_digit-IsPlain ten (n % 16) h (omega arith), tt)
  | inr large ↦ rw large (
      All-append IsPlain (hex_digits ten k (n / 16)) _ (hex_digits-IsPlain ten k (n / 16) h)
        (hex_digit-IsPlain ten (n % 16) h (omega arith), tt))
]

abbrev pub power16 : ℕ → ℕ
power16 zero = 1
power16 (suc w) = 16 * power16 w

length-hex_digits : (ten w k n : ℕ) → n < power16 (suc w) → length (hex_digits ten k n) ≤ suc w
unfolding hex_digits
length-hex_digits ten w zero n h = omega arith
length-hex_digits ten zero (suc k) n h =
    let small : ltb n 16 ≡ true = ground arith in rw small (omega arith)
length-hex_digits ten (suc w) (suc k) n h = elim (Bool-cases (ltb n 16)) [
  | inl small ↦ rw small (omega arith)
  | inr large ↦ rw large (
      omega (
        arith,
        length-append (hex_digits ten k (n / 16)) (hex_digit ten (n % 16) ∷ []),
        length-hex_digits ten w k (n / 16) (omega arith),
      ))
]

pub Shows-hex : (ten w n : ℕ) → IsTen ten → n < power16 (suc w) → Shows (hex ten (suc w) n) (suc w)
unfolding hex
Shows-hex ten w n h k =
    Shows-of_eq ((suc w - length (hex_digits ten 16 n)) + length (hex_digits ten 16 n)) (suc w)
      (omega (arith, length-hex_digits ten w 16 n k))
      (Shows-repeat _ b'0' (omega arith)
        then_shows Shows-text (hex_digits ten 16 n) (hex_digits-IsPlain ten 16 n h))
