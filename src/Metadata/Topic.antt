-- ===== src/Metadata/Topic.antt =====
-- src/metadata/dto/topic.hpp: the two kinds of metadata records.
pub mod Decode
use codecrafters_kafka_cpp.Common.{ℕ, List, Bytes}
use codecrafters_kafka_cpp.Core.Reader.{
  Reader, pure, ◌>>=◌, read_be, read_span, read_compact_string, read_compact_array,
  deserialize_int32,
}

pub record TopicRecord : Type 0 where
  pub name : Bytes
  pub topic_id : Bytes

pub record PartitionRecord : Type 0 where
  pub partition_id : ℕ
  pub topic_id : Bytes
  pub replicas : List ℕ
  pub isr : List ℕ
  pub removing_replicas : List ℕ
  pub adding_replicas : List ℕ
  pub leader : ℕ
  pub leader_epoch : ℕ
  pub partition_epoch : ℕ

-- The identifier is copied byte by byte, unchecked, which is `read_span 16`.
unfoldable pub deserialize_topic : Reader TopicRecord
deserialize_topic = do
  name ← read_compact_string
  topic_id ← read_span 16
  pure (record { name = name; topic_id = topic_id })

unfoldable pub deserialize_partition : Reader PartitionRecord
deserialize_partition = do
  partition_id ← read_be 4
  topic_id ← read_span 16
  replicas ← read_compact_array deserialize_int32
  isr ← read_compact_array deserialize_int32
  removing_replicas ← read_compact_array deserialize_int32
  adding_replicas ← read_compact_array deserialize_int32
  leader ← read_be 4
  leader_epoch ← read_be 4
  partition_epoch ← read_be 4
  pure (record {
    partition_id = partition_id;
    topic_id = topic_id;
    replicas = replicas;
    isr = isr;
    removing_replicas = removing_replicas;
    adding_replicas = adding_replicas;
    leader = leader;
    leader_epoch = leader_epoch;
    partition_epoch = partition_epoch;
  })
