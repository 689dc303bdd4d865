-- ===== src/Core/Reader/Primitives.antt =====
-- Strings, bytes, arrays and tag buffers: what their readers decode. A length goes out one larger,
-- since 0 stands for null.
use codecrafters_kafka_cpp.Common.{
  ℕ, ◌+◌, ◌-◌, ◌^◌, ◌<◌, ◌≡◌, false, List, [], ◌∷◌, append_assoc, length, All, Option, none, some,
  Bytes, ◌==◌, arith,
}
use codecrafters_kafka_cpp.Core.Reader.{
  Reader, read_compact_string, read_nullable_compact_string, read_compact_bytes, read_items,
  read_compact_array, skip_tags, skip_tag_buffer,
}
use codecrafters_kafka_cpp.Core.Reader.Decodes.{
  Decodes, Decodes-pure, Decodes-bind, Decodes-last, Decodes-span, Decodes-varint, Decodes-skip,
}
use codecrafters_kafka_cpp.Core.Wire.{
  FitsLength, string_bytes, nullable_bytes, FitsNullable, items_bytes, array_bytes, Tags, FitsTag,
  tag_bytes, tag_buffer_bytes,
}

length-ne-zero : (n : ℕ) → (n + 1 == 0) ≡ false
length-ne-zero n = ground arith

add-sub_one : (n : ℕ) → n + 1 - 1 ≡ n
add-sub_one n = omega arith

pub Decodes-string :
    (text : Bytes) → FitsLength (length text) → Decodes read_compact_string (string_bytes text) text
unfolding read_compact_string string_bytes
Decodes-string text h =
    Decodes-bind _ _ (length text + 1) (Decodes-varint (length text + 1) h)
      (rw (length-ne-zero (length text), add-sub_one (length text)) (Decodes-span text))

pub Decodes-nullable :
    (value : Option Bytes)
    → FitsNullable value
    → Decodes read_nullable_compact_string (nullable_bytes value) value
unfolding read_nullable_compact_string nullable_bytes string_bytes
Decodes-nullable none h = Decodes-last _ _ 0 (Decodes-varint 0 (omega arith)) (Decodes-pure none)
Decodes-nullable (some text) h =
    Decodes-bind _ _ (length text + 1) (Decodes-varint (length text + 1) h) (
      rw (length-ne-zero (length text), add-sub_one (length text))
        (Decodes-last _ _ text (Decodes-span text) (Decodes-pure (some text))))

pub Decodes-bytes :
    (value : Option Bytes)
    → FitsNullable value
    → Decodes read_compact_bytes (nullable_bytes value) value
unfolding read_compact_bytes read_nullable_compact_string
Decodes-bytes = Decodes-nullable

module _ {A : Type 0} (deserialize : Reader A) (encode : A → Bytes) where
  pub Decodes-items :
      (items : List A)
      → All (λ item. Decodes deserialize (encode item) item) items
      → Decodes (read_items deserialize (length items)) (items_bytes encode items) items
  unfolding read_items items_bytes
  Decodes-items [] h = Decodes-pure []
  Decodes-items (item ∷ items) h =
      Decodes-bind _ _ item h.0
        (Decodes-last _ _ items (Decodes-items items h.1) (Decodes-pure (item ∷ items)))

  -- An array whose elements are decoded one by one.
  pub Decodes-array :
      (items : List A)
      → FitsLength (length items)
      → All (λ item. Decodes deserialize (encode item) item) items
      → Decodes (read_compact_array deserialize) (array_bytes encode items) items
  unfolding read_compact_array array_bytes
  Decodes-array items fits h =
      Decodes-bind _ _ (length items + 1) (Decodes-varint (length items + 1) fits)
        (rw (length-ne-zero (length items), add-sub_one (length items)) (Decodes-items items h))

Decodes-tags :
    (tags : Tags)
    → All FitsTag tags
    → Decodes (skip_tags (length tags)) (items_bytes tag_bytes tags) tt
unfolding skip_tags items_bytes tag_bytes
Decodes-tags [] h = Decodes-pure tt
Decodes-tags ((tag, payload) ∷ tags) h = simp append_assoc (
    Decodes-bind _ _ tag (Decodes-varint tag h.0.0) (
      Decodes-bind _ _ (length payload) (Decodes-varint (length payload) h.0.1)
        (Decodes-bind _ _ tt (Decodes-skip payload) (Decodes-tags tags h.1))))

-- A tag buffer of fewer than 2 ^ 32 tags, whose numbers and payload lengths are below 2 ^ 32, is passed
-- over whole, with its payloads.
pub Decodes-tag_buffer :
    (tags : Tags)
    → length tags < 2 ^ 32
    → All FitsTag tags
    → Decodes skip_tag_buffer (tag_buffer_bytes tags) tt
unfolding skip_tag_buffer tag_buffer_bytes
Decodes-tag_buffer tags fits h =
    Decodes-bind _ _ (length tags) (Decodes-varint (length tags) fits) (Decodes-tags tags h)
