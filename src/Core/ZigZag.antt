-- ===== src/Core/ZigZag.antt =====
-- `read_signed_varint` of src/core/reader.cpp against the ZigZag code that the format prescribes.
use Prim.Native.Nat.{bit_xor}
use codecrafters_kafka_cpp.Common.{
  ℕ, ◌+◌, ◌-◌, ◌*◌, ◌/◌, ◌^◌, ◌<◌, ◌≡◌, ap₂, ◌∙◌, ◌++◌, length, Bytes, ℤ, pos, negsuc, signed, ok,
  arith,
}
use codecrafters_kafka_cpp.Common.Bits.{bit_and_1, bit_xor-zero, bit_xor-ones}
use codecrafters_kafka_cpp.Core.Wire.{varint_bytes}
use codecrafters_kafka_cpp.Core.Reader.{zigzag_decode, read_signed_varint}
use codecrafters_kafka_cpp.Core.Reader.Decodes.{Decodes, Decodes-varint, Decodes-last, Decodes-pure}

-- The code of an integer: 0, -1, 1, -2, 2, ... in this order.
abbrev pub zigzag : ℤ → ℕ
zigzag (pos n) = 2 * n
zigzag (negsuc n) = 2 * n + 1

abbrev pub IsInt32 : ℤ → Type 0
IsInt32 (pos n) = n < 2 ^ 31
IsInt32 (negsuc n) = n < 2 ^ 31

-- The pattern of 32 bits of an `int32_t`.
abbrev pub pattern32 : ℤ → ℕ
pattern32 (pos n) = n
pattern32 (negsuc n) = 2 ^ 32 - 1 - n

zigzag_decode-even : (n : ℕ) → n < 2 ^ 31 → zigzag_decode (2 * n) ≡ n
unfolding zigzag_decode
zigzag_decode-even n h =
    ap₂ bit_xor {x = 2 * n / 2} {y = n} (omega arith) (omega (arith, bit_and_1 (2 * n)))
    ∙ bit_xor-zero n

zigzag_decode-odd : (n : ℕ) → n < 2 ^ 31 → zigzag_decode (2 * n + 1) ≡ 2 ^ 32 - 1 - n
unfolding zigzag_decode
zigzag_decode-odd n h =
    ap₂ bit_xor {x = (2 * n + 1) / 2} {y = n} (omega arith) (omega (arith, bit_and_1 (2 * n + 1)))
    ∙ bit_xor-ones 32 n (omega arith)

zigzag_decode-zigzag : (z : ℤ) → IsInt32 z → zigzag_decode (zigzag z) ≡ pattern32 z
zigzag_decode-zigzag (pos n) h = zigzag_decode-even n h
zigzag_decode-zigzag (negsuc n) h = zigzag_decode-odd n h

zigzag-lt : (z : ℤ) → IsInt32 z → zigzag z < 2 ^ 32
zigzag-lt (pos n) h = omega arith
zigzag-lt (negsuc n) h = omega arith

pub Decodes-signed_varint :
    (z : ℤ) → IsInt32 z → Decodes read_signed_varint (varint_bytes (zigzag z)) (pattern32 z)
unfolding read_signed_varint
Decodes-signed_varint z h =
    Decodes-last _ _ (zigzag z) (Decodes-varint (zigzag z) (zigzag-lt z h))
      (rw (zigzag_decode-zigzag z h) (Decodes-pure (pattern32 z)))

signed-pattern32 : (z : ℤ) → IsInt32 z → signed 32 (pattern32 z) ≡ z
signed-pattern32 (pos n) h = ground arith
signed-pattern32 (negsuc n) h = ground arith

-- Wherever the ZigZag code of a 32-bit integer stands in a span, `read_signed_varint` takes it whole
-- and returns the pattern of 32 bits that stands for the integer in two's complement.
pub read_signed_varint-zigzag :
    (z : ℤ) (before after : Bytes)
    → IsInt32 z
    → length before + length (varint_bytes (zigzag z)) + length after < 2 ^ 64
    → (v : ℕ) × (signed 32 v ≡ z)
      × (read_signed_varint (before ++ (varint_bytes (zigzag z) ++ after)) (length before)
          ≡ ok (v, length before + length (varint_bytes (zigzag z))))
read_signed_varint-zigzag z before after h fits =
    (pattern32 z, signed-pattern32 z h, (Decodes-signed_varint z h).run before after fits)
