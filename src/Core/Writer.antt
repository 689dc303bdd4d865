-- ===== src/Core/Writer.antt =====
-- src/core/writer.cpp, writer.hpp and primitive_serializers.hpp. A writer takes the value and then
-- the buffer, and returns the buffer that it leaves; `◌|>◌` puts calls in the source's order.
pub mod Varint
pub mod Appends
use Prim.Native.Nat.{bit_and, bit_or}
use mathlib.Core.Logic.{dite}
use mathlib.Core.WellFounded.{Acc, WellFounded}
use native.Mathlib.Decide.{dec_lt}
use codecrafters_kafka_cpp.Common.{
  ℕ, zero, suc, ◌+◌, ◌/◌, ◌%◌, ◌^◌, ◌<◌, Option, none, some, List, [], ◌∷◌, ◌++◌, length, Bytes,
  le_bytes, byteswap, arith,
}

infixl 3 ◌|>◌
abbrev pub ◌|>◌ : {A B : Type 0} → A → (A → B) → B
x |> f = f x

abbrev pub push_back : ℕ → Bytes → Bytes
push_back byte buffer = buffer ++ byte ∷ []

below-Acc : (n k : ℕ) → k < n → Acc ◌<◌ k
below-Acc zero k h = absurd (omega arith)
below-Acc (suc n) k h = Acc.intro k (λ m hm. below-Acc n m (omega arith))

unfoldable pub lt_wf : WellFounded ◌<◌
unfolding below-Acc
lt_wf = record { apply = λ n. below-Acc (suc n) n (omega arith) }

pub shift_shrinks : (value : ℕ) → 0x7f < value → value / 128 < value
shift_shrinks value h = omega arith

-- `while (value > 0x7f)`: a shifted value is smaller, so the loop ends.
unfoldable pub write_varint_loop : (value : ℕ) → Acc ◌<◌ value → Bytes → Bytes
write_varint_loop value (Acc.intro _ smaller) buffer =
    dite (dec_lt 0x7f value)
      (λ more.
        write_varint_loop (value / 128) (smaller _ (shift_shrinks value more))
          (push_back (bit_or (bit_and value 0x7f) 0x80 % 256) buffer))
      (λ _. push_back (bit_and value 0x7f % 256) buffer)

unfoldable pub write_unsigned_varint : ℕ → Bytes → Bytes
write_unsigned_varint value = write_varint_loop value (lt_wf.apply value)

-- A `size_t` is cut to `uint32_t` where it becomes a compact length.
unfoldable pub write_compact_string : Bytes → Bytes → Bytes
write_compact_string text buffer =
    (buffer |> write_unsigned_varint ((length text + 1) % 2 ^ 32)) ++ text

unfoldable pub write_nullable_compact_string : Option Bytes → Bytes → Bytes
write_nullable_compact_string none buffer = buffer |> write_unsigned_varint 0
write_nullable_compact_string (some value) buffer =
    (buffer |> write_unsigned_varint ((length value + 1) % 2 ^ 32)) ++ value

unfoldable pub write_empty_tag_buffer : Bytes → Bytes
write_empty_tag_buffer = write_unsigned_varint 0

-- `write_be` of an integer of `n` bytes: the bytes in memory of the swapped value.
unfoldable pub write_be : ℕ → ℕ → Bytes → Bytes
write_be n value buffer = buffer ++ le_bytes n (byteswap n value)

module _ {A : Type 0} (serialize : A → Bytes → Bytes) where
  unfoldable pub write_items : List A → Bytes → Bytes
  write_items [] buffer = buffer
  write_items (item ∷ items) buffer = write_items items (serialize item buffer)

  unfoldable pub write_compact_array : List A → Bytes → Bytes
  write_compact_array items buffer =
      buffer |> write_unsigned_varint ((length items + 1) % 2 ^ 32) |> write_items items

-- `Serializer<int32_t>`, `Serializer<int16_t>` and `Serializer<std::string>`.
unfoldable pub serialize_int32 : ℕ → Bytes → Bytes
serialize_int32 = write_be 4

unfoldable pub serialize_int16 : ℕ → Bytes → Bytes
serialize_int16 = write_be 2

unfoldable pub serialize_string : Bytes → Bytes → Bytes
serialize_string = write_compact_string
