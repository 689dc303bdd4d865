-- ===== src/Api/Dto/Produce/Decode.antt =====
-- A Produce request as the protocol lays it out, and what the broker reads of it.
use codecrafters_kafka_cpp.Common.{◌^◌, ◌<◌, ◌++◌, length, All, All-imp, Bytes, be_bytes}
use codecrafters_kafka_cpp.Core.Wire.{
  FitsLength, FitsNullable, string_bytes, nullable_bytes, array_bytes, Tags, FitsTag,
  tag_buffer_bytes,
}
use codecrafters_kafka_cpp.Core.Reader.Decodes.{
  Decodes, Decodes-bind, Decodes-last, Decodes-pure, Decodes-be,
}
use codecrafters_kafka_cpp.Core.Reader.Primitives.{
  Decodes-string, Decodes-nullable, Decodes-bytes, Decodes-array, Decodes-tag_buffer,
}
use codecrafters_kafka_cpp.Api.Dto.Produce.{
  ProducePartitionRequest, ProduceTopicRequest, ProduceRequest, deserialize_produce_partition,
  deserialize_produce_topic, deserialize_produce,
}

module _ (tags : Tags) where
  -- Every structure of the request ends in a tag buffer; here each has the same one.
  unfoldable pub produce_partition_bytes : ProducePartitionRequest → Bytes
  produce_partition_bytes p =
      be_bytes 4 p.index ++ (nullable_bytes p.records ++ tag_buffer_bytes tags)

  unfoldable pub produce_topic_bytes : ProduceTopicRequest → Bytes
  produce_topic_bytes t =
      string_bytes t.name
      ++ (array_bytes produce_partition_bytes t.partitions ++ tag_buffer_bytes tags)

  unfoldable pub produce_bytes : ProduceRequest → Bytes
  produce_bytes r =
      nullable_bytes r.transactional_id
      ++ (be_bytes 2 r.acks
          ++ (be_bytes 4 r.timeout_ms
              ++ (array_bytes produce_topic_bytes r.topics ++ tag_buffer_bytes tags)))

pub record FitsProducePartition (p : ProducePartitionRequest) : Type 0 where
  pub index : p.index < 2 ^ 32
  pub records : FitsNullable p.records

pub record FitsProduceTopic (t : ProduceTopicRequest) : Type 0 where
  pub name : FitsLength (length t.name)
  pub count : FitsLength (length t.partitions)
  pub partitions : All FitsProducePartition t.partitions

pub record FitsProduce (r : ProduceRequest) : Type 0 where
  pub transactional_id : FitsNullable r.transactional_id
  pub acks : r.acks < 2 ^ 16
  pub timeout_ms : r.timeout_ms < 2 ^ 32
  pub count : FitsLength (length r.topics)
  pub topics : All FitsProduceTopic r.topics

module _ (tags : Tags) (count : length tags < 2 ^ 32) (fits : All FitsTag tags) where
  Decodes-produce_partition :
      (p : ProducePartitionRequest)
      → FitsProducePartition p
      → Decodes deserialize_produce_partition (produce_partition_bytes tags p) p
  unfolding deserialize_produce_partition produce_partition_bytes
  Decodes-produce_partition p h = Decodes-bind _ _ p.index (Decodes-be 4 p.index h.index) (
      Decodes-bind _ _ p.records (Decodes-bytes p.records h.records)
        (Decodes-last _ _ tt (Decodes-tag_buffer tags count fits) (Decodes-pure p)))

  Decodes-produce_topic :
      (t : ProduceTopicRequest)
      → FitsProduceTopic t
      → Decodes deserialize_produce_topic (produce_topic_bytes tags t) t
  unfolding deserialize_produce_topic produce_topic_bytes
  Decodes-produce_topic t h = Decodes-bind _ _ t.name (Decodes-string t.name h.name) (
      Decodes-bind _ _ t.partitions
        (Decodes-array deserialize_produce_partition (produce_partition_bytes tags) t.partitions
          h.count (All-imp Decodes-produce_partition t.partitions h.partitions))
        (Decodes-last _ _ tt (Decodes-tag_buffer tags count fits) (Decodes-pure t)))

  -- Wherever the layout of a request whose fields and tags fit stands in a span shorter than 2 ^ 64, the
  -- broker reads that request from it and
  -- stops behind it; the tag buffers, empty or not, are passed over.
  pub Decodes-produce :
      (r : ProduceRequest) → FitsProduce r → Decodes deserialize_produce (produce_bytes tags r) r
  unfolding deserialize_produce produce_bytes
  Decodes-produce r h =
      Decodes-bind _ _ r.transactional_id (Decodes-nullable r.transactional_id h.transactional_id) (
        Decodes-bind _ _ r.acks (Decodes-be 2 r.acks h.acks) (
          Decodes-bind _ _ r.timeout_ms (Decodes-be 4 r.timeout_ms h.timeout_ms) (
            Decodes-bind _ _ r.topics
              (Decodes-array deserialize_produce_topic (produce_topic_bytes tags) r.topics h.count
                (All-imp Decodes-produce_topic r.topics h.topics))
              (Decodes-last _ _ tt (Decodes-tag_buffer tags count fits) (Decodes-pure r)))))
