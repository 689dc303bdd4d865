-- ===== src/Metadata/Parser.antt =====
-- src/metadata/parser.cpp: the record batches of the metadata log.
pub mod Places
pub mod Records
pub mod Batches
pub mod Stuck
use codecrafters_kafka_cpp.Common.{
  ℕ, zero, suc, ◌+◌, ◌%◌, ◌^◌, Bytes, length, Option, none, some, ltb, ◌==◌, if◌then◌else◌,
  is_positive, to_size, Outcome, ok, out_of_fuel, bind,
}
use codecrafters_kafka_cpp.Core.Reader.{
  Reader, pure, ◌>>=◌, ◌>>◌, skip, read_be, read_signed_varint, read_unsigned_varint,
}
use codecrafters_kafka_cpp.Metadata.Topic.{deserialize_topic, deserialize_partition}
use codecrafters_kafka_cpp.Metadata.Cache.{MetadataCache, empty_cache, add_topic, add_partition}

-- The offset, read and assigned.
unfoldable pub tell : Reader ℕ
tell buffer offset = ok (offset, offset)

unfoldable pub seek : ℕ → Reader (Unit {0})
seek n buffer offset = ok (tt, n)

-- The payload of a record: a frame header, and a topic, a partition or what is passed over.
unfoldable pub parse_value : MetadataCache → Reader MetadataCache
parse_value cache = do
  read_unsigned_varint
  record_type ← read_unsigned_varint
  read_unsigned_varint
  if record_type == 2
      then (do topic ← deserialize_topic; pure (add_topic topic cache))
      else if record_type == 3
      then (do partition ← deserialize_partition; pure (add_partition partition cache))
      else pure cache

-- One round of the loop over the records of a batch. Lengths are `int32_t`, and the end of the
-- record is computed in `size_t`.
unfoldable pub parse_record : MetadataCache → Reader MetadataCache
parse_record cache = do
  record_length ← read_signed_varint
  start ← tell
  skip 1
  read_signed_varint
  read_signed_varint
  key_length ← read_signed_varint
  if is_positive 32 key_length then skip key_length else pure tt
  value_length ← read_signed_varint
  cache' ← if is_positive 32 value_length then parse_value cache else pure cache
  seek ((start + to_size record_length) % 2 ^ 64)
  pure cache'

unfoldable pub parse_records : ℕ → MetadataCache → Reader MetadataCache
parse_records zero cache = pure cache
parse_records (suc n) cache = do cache' ← parse_record cache; parse_records n cache'

-- The rounds of `for (int i = 0; i < records_count; ++i)`.
abbrev pub rounds_of : ℕ → ℕ
rounds_of records_count = if ltb records_count (2 ^ 31) then records_count else 0

-- The body of the loop over the batches.
unfoldable pub parse_batch : MetadataCache → Reader MetadataCache
parse_batch cache = do
  batch_start ← tell
  skip 8
  batch_length ← read_be 4
  seek ((batch_start + 57) % 2 ^ 64)
  records_count ← read_be 4
  cache' ← parse_records (rounds_of records_count) cache
  seek ((batch_start + 12 + to_size batch_length) % 2 ^ 64)
  pure cache'

-- The loop over the batches. A run that lasts longer than the buffer has bytes is at an offset for
-- the second time, and goes on for ever.
unfoldable pub parse_batches : ℕ → MetadataCache → Bytes → ℕ → Outcome MetadataCache
parse_batches zero cache buffer offset = out_of_fuel
parse_batches (suc fuel) cache buffer offset =
    let more =
      bind (parse_batch cache buffer offset) λ (cache', o). parse_batches fuel cache' buffer o in
    if ltb offset (length buffer)
    then if ltb (length buffer) (offset + 12) then ok cache else more
    else ok cache

-- `none` is a file that cannot be opened or read.
unfoldable pub parse_log_file : Option Bytes → Outcome MetadataCache
parse_log_file none = ok empty_cache
parse_log_file (some buffer) = parse_batches (length buffer + 1) empty_cache buffer 0
