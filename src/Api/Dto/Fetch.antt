-- ===== src/Api/Dto/Fetch.antt =====
-- src/api/dto/fetch.hpp: Fetch.
pub mod Decode
pub mod Encode
use codecrafters_kafka_cpp.Common.{
  ℕ, ◌+◌, ◌-◌, ◌%◌, ◌^◌, List, [], ◌∷◌, ◌++◌, Bytes, length, ◌==◌, if◌then◌else◌,
}
use codecrafters_kafka_cpp.Core.Reader.{
  Reader, pure, ◌>>=◌, ◌>>◌, read_be, read_span, read_unsigned_varint, read_items,
}
use codecrafters_kafka_cpp.Core.Writer.{◌|>◌, write_be, write_unsigned_varint, write_compact_array}

pub record FetchPartitionRequest : Type 0 where
  pub index : ℕ
  pub current_leader_epoch : ℕ
  pub fetch_offset : ℕ
  pub last_fetched_epoch : ℕ
  pub log_start_offset : ℕ
  pub partition_max_bytes : ℕ

pub record FetchTopicRequest : Type 0 where
  pub topic_id : Bytes
  pub partitions : List FetchPartitionRequest

pub record FetchRequest : Type 0 where
  pub max_wait_ms : ℕ
  pub min_bytes : ℕ
  pub max_bytes : ℕ
  pub isolation_level : ℕ
  pub session_id : ℕ
  pub session_epoch : ℕ
  pub topics : List FetchTopicRequest

pub record FetchPartitionAbortedTransactionResponse : Type 0 where
  pub producer_id : ℕ
  pub first_offset : ℕ

pub record FetchPartitionResponse : Type 0 where
  pub partition_index : ℕ
  pub error_code : ℕ
  pub high_watermark : ℕ
  pub last_stable_offset : ℕ
  pub log_start_offset : ℕ
  pub aborted_transactions : List FetchPartitionAbortedTransactionResponse
  pub preferred_read_replica : ℕ
  pub records : Bytes

pub record FetchTopicResponse : Type 0 where
  pub topic_id : Bytes
  pub partitions : List FetchPartitionResponse

pub record FetchResponse : Type 0 where
  pub throttle_time_ms : ℕ
  pub error_code : ℕ
  pub session_id : ℕ
  pub responses : List FetchTopicResponse

unfoldable pub serialize_aborted_transaction :
    FetchPartitionAbortedTransactionResponse → Bytes → Bytes
serialize_aborted_transaction txn buffer =
    buffer |> write_be 8 txn.producer_id |> write_be 8 txn.first_offset |> write_be 1 0

-- The records as compact nullable bytes, where no record at all goes out as null.
unfoldable pub write_records : Bytes → Bytes → Bytes
write_records [] buffer = buffer |> write_unsigned_varint 0
write_records (b ∷ bs) buffer =
    (buffer |> write_unsigned_varint ((length (b ∷ bs) + 1) % 2 ^ 32)) ++ b ∷ bs

unfoldable pub serialize_fetch_partition : FetchPartitionResponse → Bytes → Bytes
serialize_fetch_partition response buffer =
    buffer
    |> write_be 4 response.partition_index
    |> write_be 2 response.error_code
    |> write_be 8 response.high_watermark
    |> write_be 8 response.last_stable_offset
    |> write_be 8 response.log_start_offset
    |> write_compact_array serialize_aborted_transaction response.aborted_transactions
    |> write_be 4 response.preferred_read_replica
    |> write_records response.records
    |> write_be 1 0

unfoldable pub serialize_fetch_topic : FetchTopicResponse → Bytes → Bytes
serialize_fetch_topic response buffer =
    buffer ++ response.topic_id
    |> write_compact_array serialize_fetch_partition response.partitions
    |> write_be 1 0

unfoldable pub serialize_fetch : FetchResponse → Bytes → Bytes
serialize_fetch response buffer =
    buffer
    |> write_be 4 response.throttle_time_ms
    |> write_be 2 response.error_code
    |> write_be 4 response.session_id
    |> write_compact_array serialize_fetch_topic response.responses
    |> write_be 1 0

-- `(length == 0) ? 0 : length - 1`
abbrev pub count_of : ℕ → ℕ
count_of n = if n == 0 then 0 else n - 1

-- One round of the loop over the partitions. Of the tag buffer only the count is read.
unfoldable pub deserialize_fetch_partition : Reader FetchPartitionRequest
deserialize_fetch_partition = do
  index ← read_be 4
  current_leader_epoch ← read_be 4
  fetch_offset ← read_be 8
  last_fetched_epoch ← read_be 4
  log_start_offset ← read_be 8
  partition_max_bytes ← read_be 4
  read_unsigned_varint
  pure (record {
    index = index;
    current_leader_epoch = current_leader_epoch;
    fetch_offset = fetch_offset;
    last_fetched_epoch = last_fetched_epoch;
    log_start_offset = log_start_offset;
    partition_max_bytes = partition_max_bytes;
  })

-- One round of the loop over the topics.
unfoldable pub deserialize_fetch_topic : Reader FetchTopicRequest
deserialize_fetch_topic = do
  topic_id ← read_span 16
  partitions_length ← read_unsigned_varint
  partitions ← read_items deserialize_fetch_partition (count_of partitions_length)
  read_unsigned_varint
  pure (record { topic_id = topic_id; partitions = partitions })

unfoldable pub deserialize_fetch : Reader FetchRequest
deserialize_fetch = do
  max_wait_ms ← read_be 4
  min_bytes ← read_be 4
  max_bytes ← read_be 4
  isolation_level ← read_be 1
  session_id ← read_be 4
  session_epoch ← read_be 4
  topics_length ← read_unsigned_varint
  topics ← read_items deserialize_fetch_topic (count_of topics_length)
  pure (record {
    max_wait_ms = max_wait_ms;
    min_bytes = min_bytes;
    max_bytes = max_bytes;
    isolation_level = isolation_level;
    session_id = session_id;
    session_epoch = session_epoch;
    topics = topics;
  })
