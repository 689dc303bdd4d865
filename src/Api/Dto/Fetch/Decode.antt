-- ===== src/Api/Dto/Fetch/Decode.antt =====
-- A Fetch request as the protocol lays it out up to its topics, and what the broker reads of it.
use codecrafters_kafka_cpp.Common.{
  ℕ, ◌+◌, ◌^◌, ◌<◌, ◌≡◌, List, [], ◌++◌, append_assoc, append-nil, length, All, All-imp, Bytes,
  be_bytes, arith,
}
use codecrafters_kafka_cpp.Core.Wire.{FitsLength, array_bytes, items_bytes, varint_bytes}
use codecrafters_kafka_cpp.Core.Reader.{Reader, ◌>>=◌, read_unsigned_varint, read_items}
use codecrafters_kafka_cpp.Core.Reader.Decodes.{
  Decodes, Decodes-bind, Decodes-last, Decodes-pure, Decodes-be, Decodes-varint, Decodes-span,
}
use codecrafters_kafka_cpp.Core.Reader.Primitives.{Decodes-items}
use codecrafters_kafka_cpp.Api.Dto.Fetch.{
  FetchPartitionRequest, FetchTopicRequest, FetchRequest, deserialize_fetch_partition,
  deserialize_fetch_topic, deserialize_fetch, count_of,
}

unfoldable pub fetch_partition_bytes : FetchPartitionRequest → Bytes
fetch_partition_bytes p =
    be_bytes 4 p.index
    ++ (be_bytes 4 p.current_leader_epoch
        ++ (be_bytes 8 p.fetch_offset
            ++ (be_bytes 4 p.last_fetched_epoch
                ++ (be_bytes 8 p.log_start_offset
                    ++ (be_bytes 4 p.partition_max_bytes ++ varint_bytes 0)))))

unfoldable pub fetch_topic_bytes : FetchTopicRequest → Bytes
fetch_topic_bytes t =
    t.topic_id ++ (array_bytes fetch_partition_bytes t.partitions ++ varint_bytes 0)

unfoldable pub fetch_bytes : FetchRequest → Bytes
fetch_bytes r =
    be_bytes 4 r.max_wait_ms
    ++ (be_bytes 4 r.min_bytes
        ++ (be_bytes 4 r.max_bytes
            ++ (be_bytes 1 r.isolation_level
                ++ (be_bytes 4 r.session_id
                    ++ (be_bytes 4 r.session_epoch ++ array_bytes fetch_topic_bytes r.topics)))))

pub record FitsFetchPartition (p : FetchPartitionRequest) : Type 0 where
  pub index : p.index < 2 ^ 32
  pub current_leader_epoch : p.current_leader_epoch < 2 ^ 32
  pub fetch_offset : p.fetch_offset < 2 ^ 64
  pub last_fetched_epoch : p.last_fetched_epoch < 2 ^ 32
  pub log_start_offset : p.log_start_offset < 2 ^ 64
  pub partition_max_bytes : p.partition_max_bytes < 2 ^ 32

pub record FitsFetchTopic (t : FetchTopicRequest) : Type 0 where
  pub topic_id : length t.topic_id ≡ 16
  pub count : FitsLength (length t.partitions)
  pub partitions : All FitsFetchPartition t.partitions

pub record FitsFetch (r : FetchRequest) : Type 0 where
  pub max_wait_ms : r.max_wait_ms < 2 ^ 32
  pub min_bytes : r.min_bytes < 2 ^ 32
  pub max_bytes : r.max_bytes < 2 ^ 32
  pub isolation_level : r.isolation_level < 2 ^ 8
  pub session_id : r.session_id < 2 ^ 32
  pub session_epoch : r.session_epoch < 2 ^ 32
  pub count : FitsLength (length r.topics)
  pub topics : All FitsFetchTopic r.topics

Decodes-fetch_partition :
    (p : FetchPartitionRequest)
    → FitsFetchPartition p
    → Decodes deserialize_fetch_partition (fetch_partition_bytes p) p
unfolding deserialize_fetch_partition fetch_partition_bytes
Decodes-fetch_partition p h = Decodes-bind _ _ p.index (Decodes-be 4 p.index h.index) (
    Decodes-bind _ _ p.current_leader_epoch
      (Decodes-be 4 p.current_leader_epoch h.current_leader_epoch)
      (Decodes-bind _ _ p.fetch_offset (Decodes-be 8 p.fetch_offset h.fetch_offset) (
        Decodes-bind _ _ p.last_fetched_epoch
          (Decodes-be 4 p.last_fetched_epoch h.last_fetched_epoch)
          (Decodes-bind _ _ p.log_start_offset (Decodes-be 8 p.log_start_offset h.log_start_offset)
            (Decodes-bind _ _ p.partition_max_bytes
              (Decodes-be 4 p.partition_max_bytes h.partition_max_bytes)
              (Decodes-last _ _ 0 (Decodes-varint 0 (omega arith)) (Decodes-pure p)))))))

count_of_suc : (n : ℕ) → count_of (n + 1) ≡ n
count_of_suc n = ground arith

-- The loop over an array whose length the code has turned into a count itself.
Decodes-counted :
    {A B : Type 0} (deserialize : Reader A) (encode : A → Bytes) (items : List A)
    (f : List A → Reader B) {rest : Bytes} {b : B}
    → FitsLength (length items)
    → All (λ item. Decodes deserialize (encode item) item) items
    → Decodes (f items) rest b
    → Decodes
        (read_unsigned_varint >>= λ n. read_items deserialize (count_of n) >>= f)
        (varint_bytes (length items + 1) ++ (items_bytes encode items ++ rest))
        b
Decodes-counted deserialize encode items f fits h k =
    Decodes-bind _ _ (length items + 1) (Decodes-varint (length items + 1) fits) (
      rw (count_of_suc (length items))
        (Decodes-bind _ f items (Decodes-items deserialize encode items h) k))

-- In the layout of an array the items and what follows come behind the length.
array-append :
    {A : Type 0} (encode : A → Bytes) (items : List A) (rest : Bytes)
    → array_bytes encode items ++ rest
      ≡ varint_bytes (length items + 1) ++ (items_bytes encode items ++ rest)
unfolding array_bytes
array-append encode items rest =
    append_assoc (varint_bytes (length items + 1)) (items_bytes encode items) rest

Decodes-counted_last :
    {A B : Type 0} (deserialize : Reader A) (encode : A → Bytes) (items : List A)
    (f : List A → Reader B) {b : B}
    → FitsLength (length items)
    → All (λ item. Decodes deserialize (encode item) item) items
    → Decodes (f items) [] b
    → Decodes
        (read_unsigned_varint >>= λ n. read_items deserialize (count_of n) >>= f)
        (array_bytes encode items)
        b
unfolding array_bytes
Decodes-counted_last deserialize encode items f fits h k =
    rw append-nil at (Decodes-counted deserialize encode items f fits h k)

Decodes-fetch_topic :
    (t : FetchTopicRequest)
    → FitsFetchTopic t
    → Decodes deserialize_fetch_topic (fetch_topic_bytes t) t
unfolding deserialize_fetch_topic fetch_topic_bytes
Decodes-fetch_topic t h =
    rw (array-append fetch_partition_bytes t.partitions (varint_bytes 0), ← h.topic_id)
      (Decodes-bind _ _ t.topic_id (Decodes-span t.topic_id) (
        Decodes-counted deserialize_fetch_partition fetch_partition_bytes t.partitions _ h.count
          (All-imp Decodes-fetch_partition t.partitions h.partitions)
          (Decodes-last _ _ 0 (Decodes-varint 0 (omega arith)) (Decodes-pure t))))

-- Wherever the layout of a request whose fields fit stands in a span shorter than 2 ^ 64, the broker
-- reads that request from it and stops
-- behind its topics.
pub Decodes-fetch : (r : FetchRequest) → FitsFetch r → Decodes deserialize_fetch (fetch_bytes r) r
unfolding deserialize_fetch fetch_bytes
Decodes-fetch r h = Decodes-bind _ _ r.max_wait_ms (Decodes-be 4 r.max_wait_ms h.max_wait_ms) (
    Decodes-bind _ _ r.min_bytes (Decodes-be 4 r.min_bytes h.min_bytes) (
      Decodes-bind _ _ r.max_bytes (Decodes-be 4 r.max_bytes h.max_bytes) (
        Decodes-bind _ _ r.isolation_level (Decodes-be 1 r.isolation_level h.isolation_level) (
          Decodes-bind _ _ r.session_id (Decodes-be 4 r.session_id h.session_id) (
            Decodes-bind _ _ r.session_epoch (Decodes-be 4 r.session_epoch h.session_epoch) (
              Decodes-counted_last deserialize_fetch_topic fetch_topic_bytes r.topics _ h.count
                (All-imp Decodes-fetch_topic r.topics h.topics) (Decodes-pure r)))))))
