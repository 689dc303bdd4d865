-- ===== src/Api/Dto/Produce.antt =====
-- src/api/dto/produce.hpp: Produce.
pub mod Decode
pub mod Encode
use codecrafters_kafka_cpp.Common.{ℕ, List, Option, Bytes}
use codecrafters_kafka_cpp.Core.Reader.{
  Reader, pure, ◌>>=◌, ◌>>◌, read_be, read_compact_string, read_nullable_compact_string,
  read_compact_bytes, read_compact_array, skip_tag_buffer,
}
use codecrafters_kafka_cpp.Core.Writer.{
  ◌|>◌, write_be, write_compact_string, write_nullable_compact_string, write_compact_array,
  write_empty_tag_buffer,
}

pub record ProducePartitionRequest : Type 0 where
  pub index : ℕ
  pub records : Option Bytes

pub record ProduceTopicRequest : Type 0 where
  pub name : Bytes
  pub partitions : List ProducePartitionRequest

pub record ProduceRequest : Type 0 where
  pub transactional_id : Option Bytes
  pub acks : ℕ
  pub timeout_ms : ℕ
  pub topics : List ProduceTopicRequest

pub record ProduceRecordErrorResponse : Type 0 where
  pub batch_index : ℕ
  pub batch_index_error_message : Option Bytes

pub record ProducePartitionResponse : Type 0 where
  pub index : ℕ
  pub error_code : ℕ
  pub base_offset : ℕ
  pub log_append_time_ms : ℕ
  pub log_start_offset : ℕ
  pub record_errors : List ProduceRecordErrorResponse
  pub error_message : Option Bytes

pub record ProduceTopicResponse : Type 0 where
  pub name : Bytes
  pub partitions : List ProducePartitionResponse

pub record ProduceResponse : Type 0 where
  pub responses : List ProduceTopicResponse
  pub throttle_time_ms : ℕ

unfoldable pub deserialize_produce_partition : Reader ProducePartitionRequest
deserialize_produce_partition = do
  index ← read_be 4
  records ← read_compact_bytes
  skip_tag_buffer
  pure (record { index = index; records = records })

unfoldable pub deserialize_produce_topic : Reader ProduceTopicRequest
deserialize_produce_topic = do
  name ← read_compact_string
  partitions ← read_compact_array deserialize_produce_partition
  skip_tag_buffer
  pure (record { name = name; partitions = partitions })

unfoldable pub deserialize_produce : Reader ProduceRequest
deserialize_produce = do
  transactional_id ← read_nullable_compact_string
  acks ← read_be 2
  timeout_ms ← read_be 4
  topics ← read_compact_array deserialize_produce_topic
  skip_tag_buffer
  pure (record {
    transactional_id = transactional_id;
    acks = acks;
    timeout_ms = timeout_ms;
    topics = topics;
  })

unfoldable pub serialize_record_error : ProduceRecordErrorResponse → Bytes → Bytes
serialize_record_error error buffer =
    buffer
    |> write_be 4 error.batch_index
    |> write_nullable_compact_string error.batch_index_error_message
    |> write_empty_tag_buffer

unfoldable pub serialize_produce_partition : ProducePartitionResponse → Bytes → Bytes
serialize_produce_partition partition buffer =
    buffer
    |> write_be 4 partition.index
    |> write_be 2 partition.error_code
    |> write_be 8 partition.base_offset
    |> write_be 8 partition.log_append_time_ms
    |> write_be 8 partition.log_start_offset
    |> write_compact_array serialize_record_error partition.record_errors
    |> write_nullable_compact_string partition.error_message
    |> write_empty_tag_buffer

unfoldable pub serialize_produce_topic : ProduceTopicResponse → Bytes → Bytes
serialize_produce_topic topic buffer =
    buffer
    |> write_compact_string topic.name
    |> write_compact_array serialize_produce_partition topic.partitions
    |> write_empty_tag_buffer

unfoldable pub serialize_produce : ProduceResponse → Bytes → Bytes
serialize_produce response buffer =
    buffer
    |> write_compact_array serialize_produce_topic response.responses
    |> write_be 4 response.throttle_time_ms
    |> write_empty_tag_buffer
