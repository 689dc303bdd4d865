-- ===== src/Core/Reader.antt =====
-- src/core/reader.cpp, reader.hpp and primitive_deserializers.hpp. A reader is given the span and
-- the offset and returns the value with the offset after it. A span is shorter than 2 ^ 64 bytes.
pub mod Varint
pub mod Decodes
pub mod Primitives
use Prim.Native.Nat.{bit_and, bit_or, bit_xor}
use codecrafters_kafka_cpp.Common.{
  ℕ, zero, suc, ◌+◌, ◌-◌, ◌*◌, ◌/◌, ◌%◌, ◌^◌, Option, none, some, List, [], ◌∷◌, length, take, drop,
  Bytes, from_le, byteswap, leb, ◌==◌, if◌then◌else◌, Outcome, ok, throws, undefined, runtime_error,
  out_of_range, bind,
}

abbrev pub Reader : Type 0 → Type 0
Reader A = Bytes → ℕ → Outcome (A × ℕ)

abbrev pub pure : {A : Type 0} → A → Reader A
pure a buffer offset = ok (a, offset)

infixl 5 ◌>>=◌ ◌>>◌
abbrev pub ◌>>=◌ : {A B : Type 0} → Reader A → (A → Reader B) → Reader B
◌>>=◌ m f buffer offset = bind (m buffer offset) λ (a, o). f a buffer o

abbrev pub ◌>>◌ : {A B : Type 0} → Reader A → Reader B → Reader B
m >> k = m >>= λ _. k

-- `offset += n` on a `size_t`.
unfoldable pub skip : ℕ → Reader (Unit {0})
skip n buffer offset = ok (tt, (offset + n) % 2 ^ 64)

-- A copy of the `n` bytes from `buffer.begin() + offset`, and `offset += n`, which cannot wrap
-- within the span. The program checks no bounds: past the end the copy is undefined.
unfoldable pub read_span : ℕ → Reader Bytes
read_span n buffer offset =
    if leb (offset + n) (length buffer)
    then ok (take n (drop offset buffer), offset + n)
    else undefined

-- `value |= static_cast<uint32_t>(byte & 0x7F) << shift`
abbrev pub add_group : ℕ → ℕ → ℕ → ℕ
add_group value byte shift = bit_or value (bit_and byte 0x7f * 2 ^ shift % 2 ^ 32)

-- The loop of `read_unsigned_varint`. The list is what the span holds from `offset` on, so the
-- test of the loop and the byte that it reads are the match on it.
unfoldable pub varint_loop : Bytes → ℕ → ℕ → ℕ → Outcome (ℕ × ℕ)
varint_loop [] value shift offset = throws out_of_range
varint_loop (byte ∷ rest) value shift offset =
    let value' = add_group value byte shift in
    let more = varint_loop rest value' (shift + 7) (offset + 1) in
    if bit_and byte 0x80 == 0
    then ok (value', offset + 1)
    else if leb 32 (shift + 7)
    then throws runtime_error
    else more

unfoldable pub read_unsigned_varint : Reader ℕ
read_unsigned_varint buffer offset = varint_loop (drop offset buffer) 0 0 offset

-- `(raw >> 1) ^ -(raw & 1)` on `uint32_t`, where `-x` is 2 ^ 32 - x modulo 2 ^ 32.
unfoldable pub zigzag_decode : ℕ → ℕ
zigzag_decode raw = bit_xor (raw / 2) ((2 ^ 32 - bit_and raw 1) % 2 ^ 32)

unfoldable pub read_signed_varint : Reader ℕ
read_signed_varint = do raw ← read_unsigned_varint; pure (zigzag_decode raw)

unfoldable pub read_compact_string : Reader Bytes
read_compact_string = do
  compact_length ← read_unsigned_varint
  if compact_length == 0 then pure [] else read_span (compact_length - 1)

unfoldable pub read_nullable_compact_string : Reader (Option Bytes)
read_nullable_compact_string = do
  compact_length ← read_unsigned_varint
  if compact_length == 0
      then pure none
      else do result ← read_span (compact_length - 1); pure (some result)

unfoldable pub read_compact_bytes : Reader (Option Bytes)
read_compact_bytes = do
  compact_length ← read_unsigned_varint
  if compact_length == 0
      then pure none
      else do result ← read_span (compact_length - 1); pure (some result)

unfoldable pub read_compact_array_length : Reader ℕ
read_compact_array_length = do
  compact_length ← read_unsigned_varint
  pure (if compact_length == 0 then 0 else compact_length - 1)

-- The rounds of `skip_tag_buffer` that are left.
unfoldable pub skip_tags : ℕ → Reader (Unit {0})
skip_tags zero = pure tt
skip_tags (suc n) = do
  read_unsigned_varint
  tag_length ← read_unsigned_varint
  skip tag_length
  skip_tags n

unfoldable pub skip_tag_buffer : Reader (Unit {0})
skip_tag_buffer = do tags_count ← read_unsigned_varint; skip_tags tags_count

-- `read_be` of an integer of `n` bytes: a `memcpy` into a value, and `std::byteswap`.
unfoldable pub read_be : ℕ → Reader ℕ
read_be n = do bytes ← read_span n; pure (byteswap n (from_le bytes))

module _ {A : Type 0} (deserialize : Reader A) where
  -- The rounds of `read_compact_array` that are left, and the elements that they push.
  unfoldable pub read_items : ℕ → Reader (List A)
  read_items zero = pure []
  read_items (suc n) = do item ← deserialize; items ← read_items n; pure (item ∷ items)

  unfoldable pub read_compact_array : Reader (List A)
  read_compact_array = do
    compact_length ← read_unsigned_varint
    if compact_length == 0 then pure [] else read_items (compact_length - 1)

-- `Deserializer<int32_t>` and `Deserializer<std::string>`.
unfoldable pub deserialize_int32 : Reader ℕ
deserialize_int32 = read_be 4

unfoldable pub deserialize_string : Reader Bytes
deserialize_string = read_compact_string
