-- ===== src/Core/Writer/Varint.antt =====
-- What the writers of primitive types append, in plain arithmetic.
use mathlib.Core.WellFounded.{Acc}
use native.Mathlib.Nat.{pow-suc}
use Prim.Native.Nat.{bit_and, bit_or}
use codecrafters_kafka_cpp.Common.{
  ℕ, zero, suc, ◌+◌, ◌/◌, ◌%◌, ◌^◌, ◌≤◌, ◌<◌, ◌≡◌, [], ◌∷◌, ◌++◌, append_assoc, length, All, Bytes,
  IsByte, arith,
}
use codecrafters_kafka_cpp.Common.Bits.{bit_and_7f, bit_or_80}
use codecrafters_kafka_cpp.Core.Wire.{groups, varint_bytes}
use codecrafters_kafka_cpp.Core.Writer.{write_varint_loop, write_unsigned_varint}

last_byte : (v : ℕ) → v < 128 → bit_and v 0x7f % 256 ≡ v
last_byte v h = omega (arith, bit_and_7f v)

inner_byte : (v : ℕ) → bit_or (bit_and v 0x7f) 0x80 % 256 ≡ v % 128 + 128
inner_byte v = rw (bit_and_7f v, bit_or_80 (v % 128) (omega arith)) (omega arith)

write_varint_loop-groups :
    (k v : ℕ) (w : Acc ◌<◌ v) (buffer : Bytes)
    → v < 128 ^ suc k
    → write_varint_loop v w buffer ≡ buffer ++ groups k v
unfolding write_varint_loop groups
write_varint_loop-groups zero v (Acc.intro _ smaller) buffer h = ground (arith, last_byte v)
write_varint_loop-groups (suc k) v (Acc.intro _ smaller) buffer h =
    let head : Bytes = (v % 128 + 128) ∷ [] in
    grind (
      arith,
      last_byte v,
      inner_byte v,
      pow-suc 128 (suc k),
      λ (w : Acc ◌<◌ (v / 128)). write_varint_loop-groups k (v / 128) w (buffer ++ head),
      append_assoc buffer head (groups k (v / 128)),
    )

-- The writer keeps the buffer and appends the encoding.
pub write_unsigned_varint-append :
    (v : ℕ) (buffer : Bytes)
    → v < 2 ^ 32
    → write_unsigned_varint v buffer ≡ buffer ++ varint_bytes v
unfolding write_unsigned_varint varint_bytes
write_unsigned_varint-append v buffer h = write_varint_loop-groups 4 v _ buffer (omega arith)

groups-IsByte : (k v : ℕ) → v < 128 ^ suc k → All IsByte (groups k v)
unfolding groups
groups-IsByte zero v h = omega arith
groups-IsByte (suc k) v h = ground (arith, pow-suc 128 (suc k), groups-IsByte k (v / 128))

groups-length : (k v : ℕ) → (1 ≤ length (groups k v)) × (length (groups k v) ≤ k + 1)
unfolding groups
groups-length zero v = omega arith
groups-length (suc k) v = ground (arith, groups-length k (v / 128))

pub varint_bytes-IsByte : (v : ℕ) → v < 2 ^ 32 → All IsByte (varint_bytes v)
unfolding varint_bytes
varint_bytes-IsByte v h = groups-IsByte 4 v (omega arith)

pub varint_bytes-length : (v : ℕ) → (1 ≤ length (varint_bytes v)) × (length (varint_bytes v) ≤ 5)
unfolding varint_bytes
varint_bytes-length v = groups-length 4 v
