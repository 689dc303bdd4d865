-- ===== src/Core/RoundTrip.antt =====
-- src/core: what the writers write, the readers read back.
use codecrafters_kafka_cpp.Common.{
  ℕ, ◌+◌, ◌^◌, ◌≤◌, ◌<◌, ◌≡◌, ap, ◌∙◌, sym, List, ◌++◌, append_assoc, length, length-append, All,
  Option, Bytes, IsByte, ok, arith,
}
use codecrafters_kafka_cpp.Core.Wire.{varint_bytes, FitsLength, FitsNullable}
use codecrafters_kafka_cpp.Core.Reader.{
  Reader, read_unsigned_varint, read_compact_string, read_nullable_compact_string,
  read_compact_array, read_be,
}
use codecrafters_kafka_cpp.Core.Reader.Decodes.{Decodes, Decodes-varint, Decodes-be}
use codecrafters_kafka_cpp.Core.Reader.Primitives.{Decodes-string, Decodes-nullable, Decodes-array}
use codecrafters_kafka_cpp.Core.Writer.{
  write_unsigned_varint, write_compact_string, write_nullable_compact_string, write_compact_array,
  write_be,
}
use codecrafters_kafka_cpp.Core.Writer.Varint.{varint_bytes-length, varint_bytes-IsByte}
use codecrafters_kafka_cpp.Core.Writer.Appends.{
  Appends, Appends-varint, Appends-be, Appends-string, Appends-nullable, Appends-array,
}

-- The reader takes from the span what the writer has added to `buffer`, and stops behind it.
abbrev pub ReadsBack : {A : Type 0} → Reader A → (Bytes → Bytes) → A → Bytes → Bytes → Type 0
ReadsBack r write a buffer rest =
    r (write buffer ++ rest) (length buffer) ≡ ok (a, length (write buffer))

pub reads_back :
    {A : Type 0} (r : Reader A) (write : Bytes → Bytes) {bytes : Bytes} (a : A)
    (buffer rest : Bytes)
    → Appends write bytes
    → Decodes r bytes a
    → length (write buffer ++ rest) < 2 ^ 64
    → ReadsBack r write a buffer rest
reads_back r write {bytes} a buffer rest w d h =
    rw (w buffer, append_assoc buffer bytes rest)
      (d.run buffer rest fits ∙ ap (λ (n : ℕ). ok (a, n)) (sym (length-append buffer bytes)))
  where
    fits : length buffer + length bytes + length rest < 2 ^ 64
    fits = omega (
      arith,
      h,
      ap (λ (b : Bytes). length (b ++ rest)) (w buffer),
      length-append (buffer ++ bytes) rest,
      length-append buffer bytes,
    )

-- A number below 2 ^ 32 that `write_unsigned_varint` puts behind any buffer is read back by
-- `read_unsigned_varint` from there, and the offset is left behind it, whatever follows, as long as
-- the span is shorter than 2 ^ 64.
pub read-write_unsigned_varint :
    (v : ℕ) (buffer rest : Bytes)
    → v < 2 ^ 32
    → length (write_unsigned_varint v buffer ++ rest) < 2 ^ 64
    → ReadsBack read_unsigned_varint (write_unsigned_varint v) v buffer rest
read-write_unsigned_varint v buffer rest h =
    reads_back read_unsigned_varint (write_unsigned_varint v) v buffer rest (Appends-varint v h)
      (Decodes-varint v h)

-- For a number below 2 ^ 32 `write_unsigned_varint` keeps the buffer, and adds one to five numbers
-- behind it, all of them bytes.
pub write_unsigned_varint_shape :
    (v : ℕ) (buffer : Bytes)
    → v < 2 ^ 32
    → (bytes : Bytes) × (write_unsigned_varint v buffer ≡ buffer ++ bytes)
      × All IsByte bytes
      × (1 ≤ length bytes)
      × (length bytes ≤ 5)
write_unsigned_varint_shape v buffer h =
    let (lo, hi) = varint_bytes-length v in
    (varint_bytes v, Appends-varint v h buffer, varint_bytes-IsByte v h, lo, hi)

-- An integer of `n` bytes that `write_be` puts behind any buffer is read back by `read_be` of `n`
-- bytes, and the offset is left behind it, as long as the span is shorter than 2 ^ 64.
pub read-write_be :
    (n v : ℕ) (buffer rest : Bytes)
    → v < 256 ^ n
    → length (write_be n v buffer ++ rest) < 2 ^ 64
    → ReadsBack (read_be n) (write_be n v) v buffer rest
read-write_be n v buffer rest h =
    reads_back (read_be n) (write_be n v) v buffer rest (Appends-be n v) (Decodes-be n v h)

-- A string shorter than 2 ^ 32 - 1 bytes that `write_compact_string` puts behind any buffer is read
-- back by `read_compact_string`, and the offset is left behind it, as long as the span is shorter
-- than 2 ^ 64.
pub read-write_compact_string :
    (text buffer rest : Bytes)
    → FitsLength (length text)
    → length (write_compact_string text buffer ++ rest) < 2 ^ 64
    → ReadsBack read_compact_string (write_compact_string text) text buffer rest
read-write_compact_string text buffer rest h =
    reads_back read_compact_string (write_compact_string text) text buffer rest
      (Appends-string text h) (Decodes-string text h)

-- A nullable string, null or shorter than 2 ^ 32 - 1 bytes, that `write_nullable_compact_string` puts
-- behind any buffer is read back by `read_nullable_compact_string`, and the offset is left behind it,
-- as long as the span is shorter than 2 ^ 64.
pub read-write_nullable_compact_string :
    (value : Option Bytes) (buffer rest : Bytes)
    → FitsNullable value
    → length (write_nullable_compact_string value buffer ++ rest) < 2 ^ 64
    → ReadsBack read_nullable_compact_string (write_nullable_compact_string value) value buffer rest
read-write_nullable_compact_string value buffer rest h =
    reads_back read_nullable_compact_string (write_nullable_compact_string value) value buffer rest
      (Appends-nullable value h) (Decodes-nullable value h)

module _ {A : Type 0} (deserialize : Reader A) (serialize : A → Bytes → Bytes)
    (encode : A → Bytes) where
  -- An array of fewer than 2 ^ 32 - 1 elements, each with an encoding that `serialize` appends and
  -- `deserialize` decodes, that `write_compact_array` puts behind any buffer is read back by
  -- `read_compact_array`, and the offset is left behind it, as long as the span is shorter than
  -- 2 ^ 64.
  pub read-write_compact_array :
      (items : List A) (buffer rest : Bytes)
      → FitsLength (length items)
      → All (λ item. Appends (serialize item) (encode item)) items
      → All (λ item. Decodes deserialize (encode item) item) items
      → length (write_compact_array serialize items buffer ++ rest) < 2 ^ 64
      → ReadsBack
          (read_compact_array deserialize)
          (write_compact_array serialize items)
          items
          buffer
          rest
  read-write_compact_array items buffer rest h w d =
      reads_back (read_compact_array deserialize) (write_compact_array serialize items) items buffer
        rest (Appends-array serialize encode items h w) (Decodes-array deserialize encode items h d)
