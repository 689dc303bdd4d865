-- ===== src/Api/Dto/Fetch/Encode.antt =====
-- The layout of a Fetch response, and that the serializer appends it.
use codecrafters_kafka_cpp.Common.{◌+◌, [], ◌∷◌, ◌++◌, length, All, All-imp, Bytes, be_bytes, arith}
use codecrafters_kafka_cpp.Core.Wire.{FitsLength, array_bytes, varint_bytes, string_bytes}
use codecrafters_kafka_cpp.Core.Writer.{write_be, write_compact_array}
use codecrafters_kafka_cpp.Core.Writer.Appends.{
  Appends, Appends-then, Appends-be, Appends-bytes, Appends-varint, Appends-array, All-Appends,
  length_uncut,
}
use codecrafters_kafka_cpp.Api.Dto.Fetch.{
  FetchPartitionAbortedTransactionResponse, FetchPartitionResponse, FetchTopicResponse,
  FetchResponse, serialize_aborted_transaction, write_records, serialize_fetch_partition,
  serialize_fetch_topic, serialize_fetch,
}

unfoldable pub aborted_transaction_bytes : FetchPartitionAbortedTransactionResponse → Bytes
aborted_transaction_bytes t =
    (be_bytes 8 t.producer_id ++ be_bytes 8 t.first_offset) ++ be_bytes 1 0

-- Records go out as null where there are none.
unfoldable pub records_bytes : Bytes → Bytes
records_bytes [] = varint_bytes 0
records_bytes (b ∷ bs) = string_bytes (b ∷ bs)

unfoldable pub fetch_partition_response_bytes : FetchPartitionResponse → Bytes
fetch_partition_response_bytes p =
    (((((((be_bytes 4 p.partition_index ++ be_bytes 2 p.error_code) ++ be_bytes 8 p.high_watermark)
              ++ be_bytes 8 p.last_stable_offset)
            ++ be_bytes 8 p.log_start_offset)
          ++ array_bytes aborted_transaction_bytes p.aborted_transactions)
        ++ be_bytes 4 p.preferred_read_replica)
      ++ records_bytes p.records)
    ++ be_bytes 1 0

unfoldable pub fetch_topic_response_bytes : FetchTopicResponse → Bytes
fetch_topic_response_bytes t =
    (t.topic_id ++ array_bytes fetch_partition_response_bytes t.partitions) ++ be_bytes 1 0

unfoldable pub fetch_response_bytes : FetchResponse → Bytes
fetch_response_bytes r =
    (((be_bytes 4 r.throttle_time_ms ++ be_bytes 2 r.error_code) ++ be_bytes 4 r.session_id)
      ++ array_bytes fetch_topic_response_bytes r.responses)
    ++ be_bytes 1 0

pub record FitsFetchPartitionResponse (p : FetchPartitionResponse) : Type 0 where
  pub aborted_transactions : FitsLength (length p.aborted_transactions)
  pub records : FitsLength (length p.records)

pub record FitsFetchTopicResponse (t : FetchTopicResponse) : Type 0 where
  pub count : FitsLength (length t.partitions)
  pub partitions : All FitsFetchPartitionResponse t.partitions

pub record FitsFetchResponse (r : FetchResponse) : Type 0 where
  pub count : FitsLength (length r.responses)
  pub responses : All FitsFetchTopicResponse r.responses

Appends-aborted_transaction :
    (t : FetchPartitionAbortedTransactionResponse)
    → Appends (serialize_aborted_transaction t) (aborted_transaction_bytes t)
unfolding serialize_aborted_transaction aborted_transaction_bytes
Appends-aborted_transaction t =
    Appends-then _ (write_be 1 0)
      (Appends-then _ (write_be 8 t.first_offset) (Appends-be 8 t.producer_id)
        (Appends-be 8 t.first_offset))
      (Appends-be 1 0)

Appends-records :
    (records : Bytes)
    → FitsLength (length records)
    → Appends (write_records records) (records_bytes records)
unfolding write_records records_bytes string_bytes
Appends-records [] h = Appends-varint 0 (omega arith)
Appends-records (b ∷ bs) h = rw (length_uncut (length (b ∷ bs)) h) (
    Appends-then _ (λ buffer. buffer ++ b ∷ bs) (Appends-varint (length (b ∷ bs) + 1) h)
      (Appends-bytes (b ∷ bs)))

Appends-fetch_partition :
    (p : FetchPartitionResponse)
    → FitsFetchPartitionResponse p
    → Appends (serialize_fetch_partition p) (fetch_partition_response_bytes p)
unfolding serialize_fetch_partition fetch_partition_response_bytes
Appends-fetch_partition p h =
    Appends-then _ (write_be 1 0)
      (Appends-then _ (write_records p.records)
        (Appends-then _ (write_be 4 p.preferred_read_replica)
          (Appends-then _ (write_compact_array serialize_aborted_transaction p.aborted_transactions)
            (Appends-then _ (write_be 8 p.log_start_offset)
              (Appends-then _ (write_be 8 p.last_stable_offset)
                (Appends-then _ (write_be 8 p.high_watermark)
                  (Appends-then _ (write_be 2 p.error_code) (Appends-be 4 p.partition_index)
                    (Appends-be 2 p.error_code))
                  (Appends-be 8 p.high_watermark))
                (Appends-be 8 p.last_stable_offset))
              (Appends-be 8 p.log_start_offset))
            (Appends-array serialize_aborted_transaction aborted_transaction_bytes
              p.aborted_transactions h.aborted_transactions
              (All-Appends serialize_aborted_transaction aborted_transaction_bytes
                Appends-aborted_transaction p.aborted_transactions)))
          (Appends-be 4 p.preferred_read_replica))
        (Appends-records p.records h.records))
      (Appends-be 1 0)

Appends-fetch_topic :
    (t : FetchTopicResponse)
    → FitsFetchTopicResponse t
    → Appends (serialize_fetch_topic t) (fetch_topic_response_bytes t)
unfolding serialize_fetch_topic fetch_topic_response_bytes
Appends-fetch_topic t h =
    Appends-then _ (write_be 1 0)
      (Appends-then _ (write_compact_array serialize_fetch_partition t.partitions)
        (Appends-bytes t.topic_id)
        (Appends-array serialize_fetch_partition fetch_partition_response_bytes t.partitions h.count
          (All-imp Appends-fetch_partition t.partitions h.partitions)))
      (Appends-be 1 0)

pub Appends-fetch :
    (r : FetchResponse) → FitsFetchResponse r → Appends (serialize_fetch r) (fetch_response_bytes r)
unfolding serialize_fetch fetch_response_bytes
Appends-fetch r h =
    Appends-then _ (write_be 1 0)
      (Appends-then _ (write_compact_array serialize_fetch_topic r.responses)
        (Appends-then _ (write_be 4 r.session_id)
          (Appends-then _ (write_be 2 r.error_code) (Appends-be 4 r.throttle_time_ms)
            (Appends-be 2 r.error_code))
          (Appends-be 4 r.session_id))
        (Appends-array serialize_fetch_topic fetch_topic_response_bytes r.responses h.count
          (All-imp Appends-fetch_topic r.responses h.responses)))
      (Appends-be 1 0)
