-- ===== src/Api/Dto/Describe/Encode.antt =====
-- The layout of a DescribeTopicPartitions response, and that the serializer appends it.
use codecrafters_kafka_cpp.Common.{
  ℕ, List, [], ◌∷◌, ◌++◌, length, All, All-imp, Bytes, be_bytes, if◌then◌else◌,
}
use codecrafters_kafka_cpp.Core.Wire.{FitsLength, array_bytes, string_bytes}
use codecrafters_kafka_cpp.Core.Writer.{
  push_back, write_be, write_compact_array, write_compact_string, serialize_int32,
}
use codecrafters_kafka_cpp.Core.Writer.Appends.{
  Appends, Appends-then, Appends-be, Appends-byte, Appends-bytes, Appends-string, Appends-array,
  All-Appends,
}
use codecrafters_kafka_cpp.Api.Dto.Describe.{
  DescribeTopicPartitionResponse, DescribeTopicResponse, DescribeResponse,
  serialize_describe_partition, serialize_describe_topic, serialize_describe,
}

abbrev int32s : List ℕ → Bytes
int32s = array_bytes (be_bytes 4)

unfoldable pub describe_partition_response_bytes : DescribeTopicPartitionResponse → Bytes
describe_partition_response_bytes p =
    ((((((((be_bytes 2 p.error_code ++ be_bytes 4 p.partition_index) ++ be_bytes 4 p.leader_id)
                ++ be_bytes 4 p.leader_epoch)
              ++ int32s p.replica_nodes)
            ++ int32s p.isr_nodes)
          ++ int32s p.eligible_leader_replicas)
        ++ int32s p.last_known_elr)
      ++ int32s p.offline_replicas)
    ++ 0 ∷ []

unfoldable pub describe_topic_response_bytes : DescribeTopicResponse → Bytes
describe_topic_response_bytes t =
    (((((be_bytes 2 t.error_code ++ string_bytes t.name) ++ t.topic_id)
          ++ be_bytes 1 (if t.is_internal then 1 else 0))
        ++ array_bytes describe_partition_response_bytes t.partitions)
      ++ be_bytes 4 t.topic_authorized_operations)
    ++ 0 ∷ []

unfoldable pub describe_response_bytes : DescribeResponse → Bytes
describe_response_bytes r =
    ((be_bytes 4 r.throttle_time_ms ++ array_bytes describe_topic_response_bytes r.topics)
      ++ be_bytes 1 r.next_cursor)
    ++ 0 ∷ []

pub record FitsDescribePartition (p : DescribeTopicPartitionResponse) : Type 0 where
  pub replica_nodes : FitsLength (length p.replica_nodes)
  pub isr_nodes : FitsLength (length p.isr_nodes)
  pub eligible_leader_replicas : FitsLength (length p.eligible_leader_replicas)
  pub last_known_elr : FitsLength (length p.last_known_elr)
  pub offline_replicas : FitsLength (length p.offline_replicas)

pub record FitsDescribeTopic (t : DescribeTopicResponse) : Type 0 where
  pub name : FitsLength (length t.name)
  pub count : FitsLength (length t.partitions)
  pub partitions : All FitsDescribePartition t.partitions

pub record FitsDescribeResponse (r : DescribeResponse) : Type 0 where
  pub count : FitsLength (length r.topics)
  pub topics : All FitsDescribeTopic r.topics

Appends-int32s :
    (xs : List ℕ)
    → FitsLength (length xs)
    → Appends (write_compact_array serialize_int32 xs) (int32s xs)
Appends-int32s xs h =
    Appends-array serialize_int32 (be_bytes 4) xs h
      (All-Appends serialize_int32 (be_bytes 4) (unfold serialize_int32 in Appends-be 4) xs)

Appends-describe_partition :
    (p : DescribeTopicPartitionResponse)
    → FitsDescribePartition p
    → Appends (serialize_describe_partition p) (describe_partition_response_bytes p)
unfolding serialize_describe_partition describe_partition_response_bytes
Appends-describe_partition p h =
    Appends-then _ (push_back 0)
      (Appends-then _ (write_compact_array serialize_int32 p.offline_replicas)
        (Appends-then _ (write_compact_array serialize_int32 p.last_known_elr)
          (Appends-then _ (write_compact_array serialize_int32 p.eligible_leader_replicas)
            (Appends-then _ (write_compact_array serialize_int32 p.isr_nodes)
              (Appends-then _ (write_compact_array serialize_int32 p.replica_nodes)
                (Appends-then _ (write_be 4 p.leader_epoch)
                  (Appends-then _ (write_be 4 p.leader_id)
                    (Appends-then _ (write_be 4 p.partition_index) (Appends-be 2 p.error_code)
                      (Appends-be 4 p.partition_index))
                    (Appends-be 4 p.leader_id))
                  (Appends-be 4 p.leader_epoch))
                (Appends-int32s p.replica_nodes h.replica_nodes))
              (Appends-int32s p.isr_nodes h.isr_nodes))
            (Appends-int32s p.eligible_leader_replicas h.eligible_leader_replicas))
          (Appends-int32s p.last_known_elr h.last_known_elr))
        (Appends-int32s p.offline_replicas h.offline_replicas))
      (Appends-byte 0)

Appends-describe_topic :
    (t : DescribeTopicResponse)
    → FitsDescribeTopic t
    → Appends (serialize_describe_topic t) (describe_topic_response_bytes t)
unfolding serialize_describe_topic describe_topic_response_bytes
Appends-describe_topic t h =
    Appends-then _ (push_back 0)
      (Appends-then _ (write_be 4 t.topic_authorized_operations)
        (Appends-then _ (write_compact_array serialize_describe_partition t.partitions)
          (Appends-then _ (write_be 1 (if t.is_internal then 1 else 0))
            (Appends-then _ (λ buffer. buffer ++ t.topic_id)
              (Appends-then _ (write_compact_string t.name) (Appends-be 2 t.error_code)
                (Appends-string t.name h.name))
              (Appends-bytes t.topic_id))
            (Appends-be 1 (if t.is_internal then 1 else 0)))
          (Appends-array serialize_describe_partition describe_partition_response_bytes t.partitions
            h.count (All-imp Appends-describe_partition t.partitions h.partitions)))
        (Appends-be 4 t.topic_authorized_operations))
      (Appends-byte 0)

pub Appends-describe :
    (r : DescribeResponse)
    → FitsDescribeResponse r
    → Appends (serialize_describe r) (describe_response_bytes r)
unfolding serialize_describe describe_response_bytes
Appends-describe r h =
    Appends-then _ (push_back 0)
      (Appends-then _ (write_be 1 r.next_cursor)
        (Appends-then _ (write_compact_array serialize_describe_topic r.topics)
          (Appends-be 4 r.throttle_time_ms)
          (Appends-array serialize_describe_topic describe_topic_response_bytes r.topics h.count
            (All-imp Appends-describe_topic r.topics h.topics)))
        (Appends-be 1 r.next_cursor))
      (Appends-byte 0)
