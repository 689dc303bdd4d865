-- ===== src/Metadata/Parser/Records.antt =====
-- The records of the metadata log: their layout, and what the broker does with one.
use codecrafters_kafka_cpp.Common.{
  ℕ, ◌≤◌, ◌+◌, ◌%◌, ◌^◌, ◌<◌, ◌≡◌, ◌≢◌, refl, [], ◌∷◌, ◌++◌, length, length-append, true, false,
  Option, none, some, Bytes, ◌==◌, is_positive, if◌then◌else◌, to_size, ℤ, pos, negsuc, arith,
}
use codecrafters_kafka_cpp.Core.Wire.{varint_bytes}
use codecrafters_kafka_cpp.Core.Reader.{pure, ◌>>=◌, skip}
use codecrafters_kafka_cpp.Core.Reader.Decodes.{
  Decodes, Decodes-bind, Decodes-last, Decodes-pure, Decodes-varint, Decodes-skip,
}
use codecrafters_kafka_cpp.Core.Writer.Varint.{varint_bytes-length}
use codecrafters_kafka_cpp.Core.ZigZag.{zigzag, IsInt32, pattern32, Decodes-signed_varint}
use codecrafters_kafka_cpp.Metadata.Topic.{
  TopicRecord, PartitionRecord, deserialize_topic, deserialize_partition,
}
use codecrafters_kafka_cpp.Metadata.Topic.Decode.{
  topic_bytes, partition_bytes, FitsTopic, FitsPartition, Decodes-topic, Decodes-partition,
}
use codecrafters_kafka_cpp.Metadata.Cache.{MetadataCache, add_topic, add_partition}
use codecrafters_kafka_cpp.Metadata.Parser.{parse_value, parse_record}
use codecrafters_kafka_cpp.Metadata.Parser.Places.{
  DecodesAt, DecodesAt-tell, DecodesAt-pure, DecodesAt-seek, DecodesAt-bind, DecodesAt-then,
  DecodesAt-last,
}

-- What a record is about. The cache takes topics and partitions.
pub data Entry : Type 0 where
  topic : TopicRecord → Entry
  partition : PartitionRecord → Entry
  other_type : ℕ → Entry

abbrev pub add_entry : Entry → MetadataCache → MetadataCache
add_entry (topic t) cache = add_topic t cache
add_entry (partition p) cache = add_partition p cache
add_entry (other_type n) cache = cache

abbrev pub type_of : Entry → ℕ
type_of (topic t) = 2
type_of (partition p) = 3
type_of (other_type n) = n

abbrev pub payload_of : Entry → Bytes
payload_of (topic t) = topic_bytes t
payload_of (partition p) = partition_bytes p
payload_of (other_type n) = []

abbrev pub FitsEntry : Entry → Type 0
FitsEntry (topic t) = FitsTopic t
FitsEntry (partition p) = FitsPartition p
FitsEntry (other_type n) = (n < 2 ^ 32) × (n ≢ 2) × (n ≢ 3)

-- A record. Behind the fields that the broker reads may stand any others, and the headers.
pub record Record : Type 0 where
  pub attributes : ℕ
  pub timestamp_delta : ℤ
  pub offset_delta : ℤ
  pub key : Option Bytes
  pub frame_version : ℕ
  pub record_version : ℕ
  pub entry : Entry
  pub unread : Bytes
  pub headers : Bytes

unfoldable pub value_bytes : Record → Bytes
value_bytes r =
    varint_bytes r.frame_version
    ++ (varint_bytes (type_of r.entry) ++ (varint_bytes r.record_version ++ payload_of r.entry))

abbrev signed_bytes : ℤ → Bytes
signed_bytes z = varint_bytes (zigzag z)

-- The length of a key, -1 for null.
abbrev key_length : Option Bytes → ℤ
key_length none = negsuc 0
key_length (some key) = pos (length key)

abbrev key_bytes : Option Bytes → Bytes
key_bytes none = []
key_bytes (some key) = key

abbrev value_length : Record → ℕ
value_length r = length (value_bytes r) + length r.unread

unfoldable pub content_bytes : Record → Bytes
content_bytes r =
    (r.attributes ∷ [])
    ++ (signed_bytes r.timestamp_delta
        ++ (signed_bytes r.offset_delta
            ++ (signed_bytes (key_length r.key)
                ++ (key_bytes r.key
                    ++ (signed_bytes (pos (value_length r))
                        ++ (value_bytes r ++ (r.unread ++ r.headers)))))))

unfoldable pub record_bytes : Record → Bytes
record_bytes r = signed_bytes (pos (length (content_bytes r))) ++ content_bytes r

pub record FitsRecord (r : Record) : Type 0 where
  pub timestamp_delta : IsInt32 r.timestamp_delta
  pub offset_delta : IsInt32 r.offset_delta
  pub frame_version : r.frame_version < 2 ^ 32
  pub record_version : r.record_version < 2 ^ 32
  pub entry : FitsEntry r.entry
  pub size : length (content_bytes r) < 2 ^ 31

Decodes-entry :
    (e : Entry) (cache : MetadataCache)
    → FitsEntry e
    → Decodes
        (if type_of e == 2
          then (do t ← deserialize_topic; pure (add_topic t cache))
          else if type_of e == 3
          then (do p ← deserialize_partition; pure (add_partition p cache))
          else pure cache)
        (payload_of e)
        (add_entry e cache)
Decodes-entry (topic t) cache h =
    Decodes-last _ _ t (Decodes-topic t h) (Decodes-pure (add_topic t cache))
Decodes-entry (partition p) cache h =
    Decodes-last _ _ p (Decodes-partition p h) (Decodes-pure (add_partition p cache))
Decodes-entry (other_type n) cache h = rw (not_2, not_3) (Decodes-pure cache)
  where
    not_2 : (n == 2) ≡ false
    not_2 = ground arith

    not_3 : (n == 3) ≡ false
    not_3 = ground arith

type_of-lt : (e : Entry) → FitsEntry e → type_of e < 2 ^ 32
type_of-lt (topic t) h = omega arith
type_of-lt (partition p) h = omega arith
type_of-lt (other_type n) h = h.0

Decodes-value :
    (r : Record) (cache : MetadataCache)
    → FitsRecord r
    → Decodes (parse_value cache) (value_bytes r) (add_entry r.entry cache)
unfolding parse_value value_bytes
Decodes-value r cache h =
    Decodes-bind _ _ r.frame_version (Decodes-varint r.frame_version h.frame_version) (
      Decodes-bind _ _ (type_of r.entry)
        (Decodes-varint (type_of r.entry) (type_of-lt r.entry h.entry))
        (Decodes-bind _ _ r.record_version (Decodes-varint r.record_version h.record_version)
          (Decodes-entry r.entry cache h.entry)))

length-content_bytes :
    (r : Record)
    → length (content_bytes r)
      ≡ 1
        + length (signed_bytes r.timestamp_delta)
        + length (signed_bytes r.offset_delta)
        + length (signed_bytes (key_length r.key))
        + length (key_bytes r.key)
        + length (signed_bytes (pos (value_length r)))
        + length (value_bytes r)
        + length (r.unread ++ r.headers)
unfolding content_bytes
length-content_bytes r =
    let value = value_bytes r ++ (r.unread ++ r.headers) in
    let sized = signed_bytes (pos (value_length r)) ++ value in
    let keyed = key_bytes r.key ++ sized in
    let key_sized = signed_bytes (key_length r.key) ++ keyed in
    omega (
      arith,
      length-append (signed_bytes r.timestamp_delta) (signed_bytes r.offset_delta ++ key_sized),
      length-append (signed_bytes r.offset_delta) key_sized,
      length-append (signed_bytes (key_length r.key)) keyed,
      length-append (key_bytes r.key) sized,
      length-append (signed_bytes (pos (value_length r))) value,
      length-append (value_bytes r) (r.unread ++ r.headers),
    )

key-IsInt32 : (key : Option Bytes) → length (key_bytes key) < 2 ^ 31 → IsInt32 (key_length key)
key-IsInt32 none h = omega arith
key-IsInt32 (some key) h = h

Decodes-key :
    (key : Option Bytes)
    → length (key_bytes key) < 2 ^ 31
    → Decodes
        (if is_positive 32 (pattern32 (key_length key))
          then skip (pattern32 (key_length key))
          else pure tt)
        (key_bytes key)
        tt
Decodes-key none h = Decodes-pure tt
Decodes-key (some []) h = Decodes-pure tt
Decodes-key (some (b ∷ bs)) h = rw positive (Decodes-skip (b ∷ bs))
  where
    positive : is_positive 32 (length (b ∷ bs)) ≡ true
    positive = ground arith

value_length-is_positive : (r : Record) → FitsRecord r → is_positive 32 (value_length r) ≡ true
unfolding value_bytes
value_length-is_positive r h =
    let (lo, hi) = varint_bytes-length r.frame_version in
    let some_bytes : 1 ≤ length (value_bytes r) = omega (
      arith,
      lo,
      length-append (varint_bytes r.frame_version)
          (varint_bytes (type_of r.entry) ++ (varint_bytes r.record_version ++ payload_of r.entry)),
    ) in
    let bounded : value_length r < 2 ^ 31 =
      omega (arith, some_bytes, h.size, length-content_bytes r, length-append r.unread r.headers) in
    positive (value_length r) (omega (arith, some_bytes)) bounded
  where
    positive : (n : ℕ) → 1 ≤ n → n < 2 ^ 31 → is_positive 32 n ≡ true
    positive n lo hi = ground arith

-- The jump to the end of the record goes behind what is not read.
end_of_record :
    (r : Record) (start place : ℕ)
    → FitsRecord r
    → place + length (r.unread ++ r.headers) ≡ start + length (content_bytes r)
    → (start + to_size (length (content_bytes r))) % 2 ^ 64
      ≡ (place + length (r.unread ++ r.headers)) % 2 ^ 64
end_of_record r start place h e = rw (to_size_small (length (content_bytes r)) h.size, e) refl
  where
    to_size_small : (n : ℕ) → n < 2 ^ 31 → to_size n ≡ n
    to_size_small n h = ground arith

pub DecodesAt-record :
    (r : Record) (cache : MetadataCache) (place : ℕ)
    → FitsRecord r
    → DecodesAt (parse_record cache) place (record_bytes r) (add_entry r.entry cache)
unfolding parse_record record_bytes content_bytes
DecodesAt-record r cache place h =
    let size = length-content_bytes r in
    let joined = length-append r.unread r.headers in
    let key_small : length (key_bytes r.key) < 2 ^ 31 = omega (arith, h.size, size) in
    DecodesAt-then _ _ place (length (content_bytes r))
      (Decodes-signed_varint (pos (length (content_bytes r))) h.size)
      (DecodesAt-bind _ _ _ _ (DecodesAt-tell _) (
        DecodesAt-then _ _ _ tt (Decodes-skip (r.attributes ∷ [])) (
          DecodesAt-then _ _ _ _ (Decodes-signed_varint r.timestamp_delta h.timestamp_delta) (
            DecodesAt-then _ _ _ _ (Decodes-signed_varint r.offset_delta h.offset_delta) (
              DecodesAt-then _ _ _ _
                (Decodes-signed_varint (key_length r.key) (key-IsInt32 r.key key_small))
                (DecodesAt-then _ _ _ tt (Decodes-key r.key key_small) (
                  DecodesAt-then _ _ _ (value_length r)
                    (Decodes-signed_varint (pos (value_length r))
                      (omega (arith, h.size, size, joined)))
                    (rw (value_length-is_positive r h) (
                      DecodesAt-then _ _ _ (add_entry r.entry cache) (Decodes-value r cache h) (
                        DecodesAt-last _ _ _ tt
                          (DecodesAt-seek _ _ (r.unread ++ r.headers)
                            (end_of_record r _ _ h (omega (arith, size))))
                          (DecodesAt-pure (add_entry r.entry cache) _)))))))))))
