-- ===== src/Api/Dto/Produce/Encode.antt =====
-- The layout of a Produce response, and that the serializer appends it.
use codecrafters_kafka_cpp.Common.{[], ◌∷◌, ◌++◌, length, All, All-imp, Bytes, be_bytes}
use codecrafters_kafka_cpp.Core.Wire.{
  FitsLength, FitsNullable, array_bytes, string_bytes, nullable_bytes,
}
use codecrafters_kafka_cpp.Core.Writer.{
  write_be, write_compact_array, write_nullable_compact_string, write_empty_tag_buffer,
}
use codecrafters_kafka_cpp.Core.Writer.Appends.{
  Appends, Appends-then, Appends-be, Appends-string, Appends-nullable, Appends-array,
  Appends-empty_tag_buffer,
}
use codecrafters_kafka_cpp.Api.Dto.Produce.{
  ProduceRecordErrorResponse, ProducePartitionResponse, ProduceTopicResponse, ProduceResponse,
  serialize_record_error, serialize_produce_partition, serialize_produce_topic, serialize_produce,
}

unfoldable pub record_error_bytes : ProduceRecordErrorResponse → Bytes
record_error_bytes e =
    (be_bytes 4 e.batch_index ++ nullable_bytes e.batch_index_error_message) ++ 0 ∷ []

unfoldable pub produce_partition_response_bytes : ProducePartitionResponse → Bytes
produce_partition_response_bytes p =
    ((((((be_bytes 4 p.index ++ be_bytes 2 p.error_code) ++ be_bytes 8 p.base_offset)
            ++ be_bytes 8 p.log_append_time_ms)
          ++ be_bytes 8 p.log_start_offset)
        ++ array_bytes record_error_bytes p.record_errors)
      ++ nullable_bytes p.error_message)
    ++ 0 ∷ []

unfoldable pub produce_topic_response_bytes : ProduceTopicResponse → Bytes
produce_topic_response_bytes t =
    (string_bytes t.name ++ array_bytes produce_partition_response_bytes t.partitions) ++ 0 ∷ []

unfoldable pub produce_response_bytes : ProduceResponse → Bytes
produce_response_bytes r =
    (array_bytes produce_topic_response_bytes r.responses ++ be_bytes 4 r.throttle_time_ms)
    ++ 0 ∷ []

pub record FitsProducePartitionResponse (p : ProducePartitionResponse) : Type 0 where
  pub count : FitsLength (length p.record_errors)
  pub messages : All (λ e. FitsNullable e.batch_index_error_message) p.record_errors
  pub error_message : FitsNullable p.error_message

pub record FitsProduceTopicResponse (t : ProduceTopicResponse) : Type 0 where
  pub name : FitsLength (length t.name)
  pub count : FitsLength (length t.partitions)
  pub partitions : All FitsProducePartitionResponse t.partitions

pub record FitsProduceResponse (r : ProduceResponse) : Type 0 where
  pub count : FitsLength (length r.responses)
  pub responses : All FitsProduceTopicResponse r.responses

Appends-record_error :
    (e : ProduceRecordErrorResponse)
    → FitsNullable e.batch_index_error_message
    → Appends (serialize_record_error e) (record_error_bytes e)
unfolding serialize_record_error record_error_bytes
Appends-record_error e h =
    Appends-then _ write_empty_tag_buffer
      (Appends-then _ (write_nullable_compact_string e.batch_index_error_message)
        (Appends-be 4 e.batch_index) (Appends-nullable e.batch_index_error_message h))
      Appends-empty_tag_buffer

Appends-produce_partition :
    (p : ProducePartitionResponse)
    → FitsProducePartitionResponse p
    → Appends (serialize_produce_partition p) (produce_partition_response_bytes p)
unfolding serialize_produce_partition produce_partition_response_bytes
Appends-produce_partition p h =
    Appends-then _ write_empty_tag_buffer
      (Appends-then _ (write_nullable_compact_string p.error_message)
        (Appends-then _ (write_compact_array serialize_record_error p.record_errors)
          (Appends-then _ (write_be 8 p.log_start_offset)
            (Appends-then _ (write_be 8 p.log_append_time_ms)
              (Appends-then _ (write_be 8 p.base_offset)
                (Appends-then _ (write_be 2 p.error_code) (Appends-be 4 p.index)
                  (Appends-be 2 p.error_code))
                (Appends-be 8 p.base_offset))
              (Appends-be 8 p.log_append_time_ms))
            (Appends-be 8 p.log_start_offset))
          (Appends-array serialize_record_error record_error_bytes p.record_errors h.count
            (All-imp Appends-record_error p.record_errors h.messages)))
        (Appends-nullable p.error_message h.error_message))
      Appends-empty_tag_buffer

Appends-produce_topic :
    (t : ProduceTopicResponse)
    → FitsProduceTopicResponse t
    → Appends (serialize_produce_topic t) (produce_topic_response_bytes t)
unfolding serialize_produce_topic produce_topic_response_bytes
Appends-produce_topic t h =
    Appends-then _ write_empty_tag_buffer
      (Appends-then _ (write_compact_array serialize_produce_partition t.partitions)
        (Appends-string t.name h.name)
        (Appends-array serialize_produce_partition produce_partition_response_bytes t.partitions
          h.count (All-imp Appends-produce_partition t.partitions h.partitions)))
      Appends-empty_tag_buffer

pub Appends-produce :
    (r : ProduceResponse)
    → FitsProduceResponse r
    → Appends (serialize_produce r) (produce_response_bytes r)
unfolding serialize_produce produce_response_bytes
Appends-produce r h =
    Appends-then _ write_empty_tag_buffer
      (Appends-then _ (write_be 4 r.throttle_time_ms)
        (Appends-array serialize_produce_topic produce_topic_response_bytes r.responses h.count
          (All-imp Appends-produce_topic r.responses h.responses))
        (Appends-be 4 r.throttle_time_ms))
      Appends-empty_tag_buffer
