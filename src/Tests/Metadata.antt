-- ===== src/Tests/Metadata.antt =====
-- A metadata log with one topic, one partition and a record of another type.
use codecrafters_kafka_cpp.Common.{
  out_of_fuel, ◌^◌, ◌<◌, ◌≡◌, refl, [], ◌∷◌, ◌++◌, length, Option, some, none, Bytes, be_bytes,
  le_bytes, pos, negsuc, ok, arith,
}
use codecrafters_kafka_cpp.Core.Wire.{varint_bytes, groups, string_bytes, array_bytes, items_bytes}
use codecrafters_kafka_cpp.Metadata.Topic.Decode.{
  topic_bytes, partition_bytes, FitsTopic, FitsPartition,
}
use codecrafters_kafka_cpp.Metadata.Cache.{empty_cache, add_topic, add_partition, assign, find}
use codecrafters_kafka_cpp.Metadata.Parser.{parse_log_file, parse_batches}
use codecrafters_kafka_cpp.Metadata.Parser.Stuck.{stuck_batch, parse_batches_never_ends}
use codecrafters_kafka_cpp.Metadata.Parser.Records.{
  Record, Entry, topic, partition, other_type, FitsEntry, FitsRecord, record_bytes, content_bytes,
  value_bytes,
}
use codecrafters_kafka_cpp.Metadata.Parser.Batches.{
  RecordBatch, FitsRecordBatch, record_batch_bytes, metadata_log, add_batches,
  parse_log_file-metadata_log,
}
use codecrafters_kafka_cpp.Tests.Data.{foo, foo_id, foo_topic, foo_partition}

abbrev record_of : Option Bytes → Entry → Record
record_of key entry = record {
  attributes = 0;
  timestamp_delta = negsuc 0;
  offset_delta = pos 1;
  key = key;
  frame_version = 1;
  record_version = 0;
  entry = entry;
  unread = 0 ∷ [];
  headers = 0 ∷ [];
}

abbrev pub foo_batch : RecordBatch
foo_batch = record {
  base_offset = 1;
  passed_over =
      0 ∷ 0 ∷ 0 ∷ 0 ∷ 2 ∷ 0 ∷ 0 ∷ 0 ∷ 0 ∷ 0 ∷ 0 ∷ 0 ∷ 0 ∷ 0 ∷ 0 ∷ 0 ∷ 0 ∷ 0 ∷ 0 ∷ 0 ∷ 0 ∷ 0 ∷ 0 ∷ 0
      ∷ 0 ∷ 0 ∷ 0 ∷ 0 ∷ 0 ∷ 0 ∷ 0 ∷ 0 ∷ 0 ∷ 0 ∷ 0 ∷ 0 ∷ 0 ∷ 0 ∷ 0 ∷ 0 ∷ 0 ∷ 0 ∷ 0 ∷ 0 ∷ 0 ∷ [];
  records =
      record_of none (topic foo_topic)
      ∷ record_of (some (1 ∷ 2 ∷ [])) (other_type 12)
      ∷ record_of none (partition (foo_partition 0))
      ∷ [];
}

foo_topic-FitsTopic : FitsTopic foo_topic
foo_topic-FitsTopic = record { name = omega arith; topic_id = refl }

foo_partition-FitsPartition : FitsPartition (foo_partition 0)
foo_partition-FitsPartition = record {
  partition_id = omega arith;
  topic_id = refl;
  replicas = (omega arith, (omega arith, tt));
  isr = (omega arith, (omega arith, tt));
  removing_replicas = (omega arith, tt);
  adding_replicas = (omega arith, tt);
  leader = omega arith;
  leader_epoch = omega arith;
  partition_epoch = omega arith;
}

record_of-FitsRecord :
    (key : Option Bytes) (entry : Entry)
    → FitsEntry entry
    → length (content_bytes (record_of key entry)) < 2 ^ 31
    → FitsRecord (record_of key entry)
record_of-FitsRecord key entry h size = record {
  timestamp_delta = omega arith;
  offset_delta = omega arith;
  frame_version = omega arith;
  record_version = omega arith;
  entry = h;
  size = size;
}

pub foo_batch-FitsRecordBatch : FitsRecordBatch foo_batch
unfolding record_bytes content_bytes value_bytes topic_bytes partition_bytes string_bytes
    array_bytes items_bytes varint_bytes groups be_bytes le_bytes
foo_batch-FitsRecordBatch = record {
  passed_over = refl;
  count = omega arith;
  size = omega arith;
  records = (
    record_of-FitsRecord none (topic foo_topic) foo_topic-FitsTopic (omega arith),
    (
      record_of-FitsRecord (some (1 ∷ 2 ∷ [])) (other_type 12)
          (omega arith, (λ e. omega arith), (λ e. omega arith)) (omega arith),
      (
        record_of-FitsRecord none (partition (foo_partition 0)) foo_partition-FitsPartition
            (omega arith),
        tt,
      ),
    ),
  );
}

pub foo_log_size : length (metadata_log (foo_batch ∷ []) ++ 0 ∷ []) ≡ 161
unfolding metadata_log record_batch_bytes record_bytes content_bytes value_bytes topic_bytes
    partition_bytes string_bytes array_bytes items_bytes varint_bytes groups be_bytes le_bytes
foo_log_size = refl

parse_log_file-metadata_log_example :
    parse_log_file (some (metadata_log (foo_batch ∷ []) ++ 0 ∷ []))
    ≡ ok (add_batches (foo_batch ∷ []) empty_cache)
parse_log_file-metadata_log_example =
    parse_log_file-metadata_log (foo_batch ∷ []) (0 ∷ []) (foo_batch-FitsRecordBatch, tt)
      (omega arith) (rw foo_log_size (omega arith))

foo_log_cache : add_batches (foo_batch ∷ []) empty_cache ≡ record {
  topics_by_name = (foo, foo_topic) ∷ [];
  partitions_by_id = (foo_id, foo_partition 0 ∷ []) ∷ [];
}
unfolding add_topic add_partition assign find
foo_log_cache = refl

parse_batches_never_ends_example :
    parse_batches 1000 empty_cache (stuck_batch 0 foo_batch.passed_over []) 0 ≡ out_of_fuel
parse_batches_never_ends_example =
    parse_batches_never_ends 0 [] foo_batch.passed_over [] empty_cache 1000 refl (omega arith)
