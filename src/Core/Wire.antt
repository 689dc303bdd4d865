-- ===== src/Core/Wire.antt =====
-- The wire format of Kafka's primitive types, stated without the program: what an encoding is.
use codecrafters_kafka_cpp.Common.{
  ℕ, zero, suc, ◌+◌, ◌/◌, ◌%◌, ◌^◌, ◌<◌, List, [], ◌∷◌, ◌++◌, length, Option, none, some, Bytes,
  ltb, if◌then◌else◌,
}

-- The groups of seven bits of `v`, lowest first, for `v` below 128 ^ (k + 1).
unfoldable pub groups : ℕ → ℕ → Bytes
groups zero v = v ∷ []
groups (suc k) v =
    let rest = groups k (v / 128) in if ltb v 128 then v ∷ [] else (v % 128 + 128) ∷ rest

-- LEB128 of a 32-bit number.
unfoldable pub varint_bytes : ℕ → Bytes
unfolding groups
varint_bytes = groups 4

-- A length goes out one larger, since 0 stands for null.
abbrev pub FitsLength : ℕ → Type 0
FitsLength n = n + 1 < 2 ^ 32

unfoldable pub string_bytes : Bytes → Bytes
string_bytes text = varint_bytes (length text + 1) ++ text

unfoldable pub nullable_bytes : Option Bytes → Bytes
nullable_bytes none = varint_bytes 0
nullable_bytes (some text) = string_bytes text

abbrev pub FitsNullable : Option Bytes → Type 0
FitsNullable none = Unit {0}
FitsNullable (some text) = FitsLength (length text)

module _ {A : Type 0} (encode : A → Bytes) where
  unfoldable pub items_bytes : List A → Bytes
  items_bytes [] = []
  items_bytes (item ∷ items) = encode item ++ items_bytes items

  unfoldable pub array_bytes : List A → Bytes
  array_bytes items = varint_bytes (length items + 1) ++ items_bytes items

-- A tagged field is its tag, the length of its payload and the payload.
abbrev pub Tags : Type 0
Tags = List (ℕ × Bytes)

unfoldable pub tag_bytes : ℕ × Bytes → Bytes
tag_bytes (tag, payload) = varint_bytes tag ++ (varint_bytes (length payload) ++ payload)

unfoldable pub tag_buffer_bytes : Tags → Bytes
tag_buffer_bytes tags = varint_bytes (length tags) ++ items_bytes tag_bytes tags

abbrev pub FitsTag : ℕ × Bytes → Type 0
FitsTag (tag, payload) = (tag < 2 ^ 32) × (length payload < 2 ^ 32)
