-- ===== src/Api/Dto/Describe.antt =====
-- src/api/dto/describe.hpp: DescribeTopicPartitions.
pub mod Decode
pub mod Encode
use codecrafters_kafka_cpp.Common.{ℕ, Bool, true, false, List, ◌++◌, Bytes, if◌then◌else◌}
use codecrafters_kafka_cpp.Core.Reader.{
  Reader, pure, ◌>>=◌, ◌>>◌, skip, read_compact_string, read_compact_array,
}
use codecrafters_kafka_cpp.Core.Writer.{
  ◌|>◌, push_back, write_be, write_compact_string, write_compact_array, serialize_int32,
}

pub record DescribeTopicRequest : Type 0 where
  pub name : Bytes

pub record DescribeRequest : Type 0 where
  pub topics : List DescribeTopicRequest

pub record DescribeTopicPartitionResponse : Type 0 where
  pub error_code : ℕ
  pub partition_index : ℕ
  pub leader_id : ℕ
  pub leader_epoch : ℕ
  pub replica_nodes : List ℕ
  pub isr_nodes : List ℕ
  pub eligible_leader_replicas : List ℕ
  pub last_known_elr : List ℕ
  pub offline_replicas : List ℕ

pub record DescribeTopicResponse : Type 0 where
  pub error_code : ℕ
  pub name : Bytes
  pub topic_id : Bytes
  pub is_internal : Bool
  pub partitions : List DescribeTopicPartitionResponse
  pub topic_authorized_operations : ℕ

pub record DescribeResponse : Type 0 where
  pub throttle_time_ms : ℕ
  pub topics : List DescribeTopicResponse
  pub next_cursor : ℕ

unfoldable pub serialize_describe_partition : DescribeTopicPartitionResponse → Bytes → Bytes
serialize_describe_partition partition buffer =
    buffer
    |> write_be 2 partition.error_code
    |> write_be 4 partition.partition_index
    |> write_be 4 partition.leader_id
    |> write_be 4 partition.leader_epoch
    |> write_compact_array serialize_int32 partition.replica_nodes
    |> write_compact_array serialize_int32 partition.isr_nodes
    |> write_compact_array serialize_int32 partition.eligible_leader_replicas
    |> write_compact_array serialize_int32 partition.last_known_elr
    |> write_compact_array serialize_int32 partition.offline_replicas
    |> push_back 0

-- The loop over the identifier pushes its bytes one by one; `bool` is one byte.
unfoldable pub serialize_describe_topic : DescribeTopicResponse → Bytes → Bytes
serialize_describe_topic topic buffer =
    (buffer |> write_be 2 topic.error_code |> write_compact_string topic.name) ++ topic.topic_id
    |> write_be 1 (if topic.is_internal then 1 else 0)
    |> write_compact_array serialize_describe_partition topic.partitions
    |> write_be 4 topic.topic_authorized_operations
    |> push_back 0

unfoldable pub serialize_describe : DescribeResponse → Bytes → Bytes
serialize_describe res buffer =
    buffer
    |> write_be 4 res.throttle_time_ms
    |> write_compact_array serialize_describe_topic res.topics
    |> write_be 1 res.next_cursor
    |> push_back 0

-- Both readers pass over the tag buffer as over one byte.
unfoldable pub deserialize_describe_topic : Reader DescribeTopicRequest
deserialize_describe_topic = do name ← read_compact_string; skip 1; pure (record { name = name })

unfoldable pub deserialize_describe : Reader DescribeRequest
deserialize_describe = do
  topics ← read_compact_array deserialize_describe_topic
  skip 1
  pure (record { topics = topics })
