-- ===== src/Core/Reader/Varint.antt =====
-- `read_unsigned_varint` on the encoding of a number, and on any input.
use native.Mathlib.Numerals.{towards_suc}
use native.Mathlib.Nat.{div-add-mod, pow-suc, mod-eq_of_lt, mul-le-mul_right}
use Prim.Native.Nat.{bit_and, bit_or}
use codecrafters_kafka_cpp.Common.{
  ℕ, zero, suc, ◌+◌, ◌*◌, ◌/◌, ◌%◌, ◌^◌, ◌≤◌, ◌<◌, ◌≡◌, Outcome, Bool-cases, inl, inr, leb, ◌==◌,
  ap, ◌∙◌, [], ◌∷◌, ◌++◌, length, drop, Bytes, ok, throws, runtime_error, out_of_range, arith,
}
use codecrafters_kafka_cpp.Common.Bits.{bit_and_7f, bit_and_80, bit_or-shifted, bit_or-lt}
use codecrafters_kafka_cpp.Core.Reader.{varint_loop, read_unsigned_varint, add_group}
use codecrafters_kafka_cpp.Core.Wire.{groups, varint_bytes}

-- A group that fits the 32 bits is added above the bits that have been read.
add_group_lem :
    (value byte shift : ℕ)
    → value < 2 ^ shift
    → byte % 128 * 2 ^ shift < 2 ^ 32
    → add_group value byte shift ≡ value + byte % 128 * 2 ^ shift
add_group_lem value byte shift h fits = ground (
  arith,
  bit_and_7f byte,
  ap (λ (t : ℕ). bit_or value (t * 2 ^ shift % 2 ^ 32)) (bit_and_7f byte),
  ap (λ (t : ℕ). bit_or value t) (mod-eq_of_lt fits),
  bit_or-shifted shift value (byte % 128) h,
)

shift_by_seven : (s : ℕ) → 2 ^ (s + 7) ≡ 128 * 2 ^ s
shift_by_seven s = simp towards_suc (omega arith)

module _ (value shift offset : ℕ) (rest : Bytes) (low : value < 2 ^ shift) where
  loop-last :
      (w : ℕ)
      → w < 128
      → value + w * 2 ^ shift < 2 ^ 32
      → varint_loop (w ∷ rest) value shift offset ≡ ok (value + w * 2 ^ shift, offset + 1)
  unfolding varint_loop
  loop-last w h fits = ground (arith, bit_and_80 w, add_group_lem value w shift low)

  loop-inner :
      (g : ℕ)
      → g < 128
      → value + g * 2 ^ shift < 2 ^ 32
      → shift ≤ 24
      → varint_loop ((g + 128) ∷ rest) value shift offset
        ≡ varint_loop rest (value + g * 2 ^ shift) (shift + 7) (offset + 1)
  unfolding varint_loop
  loop-inner g h fits small =
      ground (arith, bit_and_80 (g + 128), add_group_lem value (g + 128) shift low)

-- The lowest group of `w` and the rest, both at bit `s`.
split_low : (w s : ℕ) → w * 2 ^ s ≡ w % 128 * 2 ^ s + w / 128 * 2 ^ (s + 7)
split_low w s = omega (
  arith,
  ap (λ (t : ℕ). t * 2 ^ s) (div-add-mod w 128),
  ap (λ (t : ℕ). w / 128 * t) (shift_by_seven s),
)

below-next : (value g s : ℕ) → value < 2 ^ s → g < 128 → value + g * 2 ^ s < 2 ^ (s + 7)
below-next value g s h k =
    let bound : g ≤ 127 = omega arith in
    omega (arith, shift_by_seven s, mul-le-mul_right (2 ^ s) bound)

-- `w` is what is still to be read, from bit `shift` on.
pub varint_loop-groups :
    (k w value shift offset : ℕ) (rest : Bytes)
    → w < 128 ^ suc k
    → value < 2 ^ shift
    → value + w * 2 ^ shift < 2 ^ 32
    → shift + 7 * k ≤ 28
    → varint_loop (groups k w ++ rest) value shift offset
      ≡ ok (value + w * 2 ^ shift, offset + length (groups k w))
unfolding groups
varint_loop-groups zero w value shift offset rest hw low fits small =
    loop-last value shift offset rest low w hw fits
varint_loop-groups (suc k) w value shift offset rest hw low fits small = ground (
  arith,
  loop-last value shift offset rest low w,
  split_low w shift,
  below-next value (w % 128) shift,
  pow-suc 128 (suc k),
  loop-inner value shift offset (groups k (w / 128) ++ rest) low (w % 128),
  varint_loop-groups k (w / 128) (value + w % 128 * 2 ^ shift) (shift + 7) (offset + 1) rest,
)

pub varint_loop-varint_bytes :
    (v offset : ℕ) (rest : Bytes)
    → v < 2 ^ 32
    → varint_loop (varint_bytes v ++ rest) 0 0 offset ≡ ok (v, offset + length (varint_bytes v))
unfolding varint_bytes
varint_loop-varint_bytes v offset rest h =
    varint_loop-groups 4 v 0 0 offset rest (omega arith) (omega arith) (omega arith) (omega arith)
    ∙ ap (λ (t : ℕ). ok (t, offset + length (groups 4 v))) (omega arith)

-- The ways in which the loop can end on bytes that begin at `offset`, with `j` of them read before:
-- a `uint32_t` after one to five bytes, five bytes that all ask for more, or the end of the bytes.
pub data VarintEnds (offset j : ℕ) (bytes : Bytes) : Outcome (ℕ × ℕ) → Type 0 where
  value :
      (v o : ℕ)
      → v < 2 ^ 32
      → offset < o
      → o ≤ offset + length bytes
      → o + j ≤ offset + 5
      → VarintEnds offset j bytes (ok (v, o))
  malformed : 5 ≤ length bytes + j → VarintEnds offset j bytes (throws runtime_error)
  ended : length bytes + j < 5 → VarintEnds offset j bytes (throws out_of_range)

VarintEnds-cons :
    (offset j b : ℕ) (bytes : Bytes) (r : Outcome (ℕ × ℕ))
    → VarintEnds (offset + 1) (j + 1) bytes r
    → VarintEnds offset j (b ∷ bytes) r
VarintEnds-cons offset j b bytes _ (value v o hv h1 h2 h3) =
    value v o hv (omega arith) (omega arith) (omega arith)
VarintEnds-cons offset j b bytes _ (malformed h) = malformed (omega arith)
VarintEnds-cons offset j b bytes _ (ended h) = ended (omega arith)

add_group-lt : (acc byte shift : ℕ) → acc < 2 ^ 32 → add_group acc byte shift < 2 ^ 32
add_group-lt acc byte shift h =
    bit_or-lt 32 acc (bit_and byte 0x7f * 2 ^ shift % 2 ^ 32) h (omega arith)

varint_loop-ends :
    (bytes : Bytes) (acc shift j offset : ℕ)
    → shift ≡ 7 * j
    → j ≤ 4
    → acc < 2 ^ 32
    → VarintEnds offset j bytes (varint_loop bytes acc shift offset)
unfolding varint_loop
varint_loop-ends [] acc shift j offset hs hj ha = ended (omega arith)
varint_loop-ends (b ∷ bs) acc shift j offset hs hj ha = elim (Bool-cases (bit_and b 0x80 == 0)) [
  | inl last ↦
      rw last (value _ _ (add_group-lt acc b shift ha) (omega arith) (omega arith) (omega arith))
  | inr more ↦ rw more (elim (Bool-cases (leb 32 (shift + 7))) [
    | inl full ↦ rw full (malformed (ground arith))
    | inr room ↦ rw room (
        VarintEnds-cons offset j b bs _ (
          varint_loop-ends bs (add_group acc b shift) (shift + 7) (j + 1) (offset + 1) (omega arith)
            (ground arith) (add_group-lt acc b shift ha)))
  ])
]

-- `read_unsigned_varint` on any span and at any offset: it ends by a `uint32_t`, having taken one to
-- five bytes of the span; or by the malformed error, if five bytes are there; or by the out-of-range
-- error, if fewer than five are there.
pub read_unsigned_varint-ends :
    (buffer : Bytes) (offset : ℕ)
    → VarintEnds offset 0 (drop offset buffer) (read_unsigned_varint buffer offset)
unfolding read_unsigned_varint
read_unsigned_varint-ends buffer offset =
    varint_loop-ends (drop offset buffer) 0 0 0 offset (omega arith) (omega arith) (omega arith)
