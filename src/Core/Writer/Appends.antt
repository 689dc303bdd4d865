-- ===== src/Core/Writer/Appends.antt =====
-- Writers only append: what each adds behind the buffer that it is given.
use codecrafters_kafka_cpp.Common.{
  ℕ, ◌+◌, ◌%◌, ◌^◌, ◌<◌, ◌≡◌, refl, ap, ◌∙◌, List, [], ◌∷◌, ◌++◌, append_assoc, append-nil, length,
  All, Option, none, some, Bytes, be_bytes, le_bytes-byteswap, arith,
}
use codecrafters_kafka_cpp.Core.Wire.{
  varint_bytes, FitsLength, string_bytes, nullable_bytes, FitsNullable, items_bytes, array_bytes,
}
use codecrafters_kafka_cpp.Core.Writer.{
  push_back, write_unsigned_varint, write_compact_string, write_nullable_compact_string,
  write_empty_tag_buffer, write_be, write_items, write_compact_array,
}
use codecrafters_kafka_cpp.Core.Writer.Varint.{write_unsigned_varint-append}

-- The writer keeps the buffer and adds `bytes`.
abbrev pub Appends : (Bytes → Bytes) → Bytes → Type 0
Appends write bytes = (buffer : Bytes) → write buffer ≡ buffer ++ bytes

pub Appends-then :
    (f g : Bytes → Bytes) {xs ys : Bytes}
    → Appends f xs
    → Appends g ys
    → Appends (λ buffer. g (f buffer)) (xs ++ ys)
Appends-then f g {xs} {ys} hf hg buffer =
    hg (f buffer) ∙ ap (λ (b : Bytes). b ++ ys) (hf buffer) ∙ append_assoc buffer xs ys

pub Appends-varint : (v : ℕ) → v < 2 ^ 32 → Appends (write_unsigned_varint v) (varint_bytes v)
Appends-varint v h buffer = write_unsigned_varint-append v buffer h

pub Appends-be : (n v : ℕ) → Appends (write_be n v) (be_bytes n v)
unfolding write_be
Appends-be n v buffer = ap (λ (b : Bytes). buffer ++ b) (le_bytes-byteswap n v)

pub Appends-byte : (b : ℕ) → Appends (push_back b) (b ∷ [])
Appends-byte b buffer = refl

pub Appends-bytes : (bytes : Bytes) → Appends (λ buffer. buffer ++ bytes) bytes
Appends-bytes bytes buffer = refl

-- A length below 2 ^ 32 is not cut.
pub length_uncut : (n : ℕ) → FitsLength n → (n + 1) % 2 ^ 32 ≡ n + 1
length_uncut n h = omega arith

pub Appends-string :
    (text : Bytes)
    → FitsLength (length text)
    → Appends (write_compact_string text) (string_bytes text)
unfolding write_compact_string string_bytes
Appends-string text h = rw (length_uncut (length text) h) (
    Appends-then _ (λ buffer. buffer ++ text) (Appends-varint (length text + 1) h)
      (Appends-bytes text))

pub Appends-nullable :
    (value : Option Bytes)
    → FitsNullable value
    → Appends (write_nullable_compact_string value) (nullable_bytes value)
unfolding write_nullable_compact_string nullable_bytes write_compact_string
Appends-nullable none h = Appends-varint 0 (omega arith)
Appends-nullable (some text) h = Appends-string text h

pub Appends-empty_tag_buffer : Appends write_empty_tag_buffer (0 ∷ [])
unfolding write_empty_tag_buffer
Appends-empty_tag_buffer buffer = unfold varint_bytes in Appends-varint 0 (omega arith) buffer

module _ {A : Type 0} (serialize : A → Bytes → Bytes) (encode : A → Bytes) where
  pub All-Appends :
      ((item : A) → Appends (serialize item) (encode item))
      → (items : List A) → All (λ item. Appends (serialize item) (encode item)) items
  All-Appends h [] = tt
  All-Appends h (item ∷ items) = (h item, All-Appends h items)

  Appends-items :
      (items : List A)
      → All (λ item. Appends (serialize item) (encode item)) items
      → Appends (write_items serialize items) (items_bytes encode items)
  unfolding write_items items_bytes
  Appends-items [] h = λ buffer. rw append-nil
  Appends-items (item ∷ items) h =
      Appends-then (serialize item) (write_items serialize items) h.0 (Appends-items items h.1)

  pub Appends-array :
      (items : List A)
      → FitsLength (length items)
      → All (λ item. Appends (serialize item) (encode item)) items
      → Appends (write_compact_array serialize items) (array_bytes encode items)
  unfolding write_compact_array array_bytes
  Appends-array items fits h =
      rw (length_uncut (length items) fits)
        (Appends-then _ _ (Appends-varint (length items + 1) fits) (Appends-items items h))
