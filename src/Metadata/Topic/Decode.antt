-- ===== src/Metadata/Topic/Decode.antt =====
-- The layout of the two kinds of metadata records, and what the broker reads of it.
use codecrafters_kafka_cpp.Common.{
  ℕ, ◌^◌, ◌<◌, ◌≡◌, List, ◌++◌, length, All, All-imp, Bytes, be_bytes,
}
use codecrafters_kafka_cpp.Core.Wire.{FitsLength, string_bytes, array_bytes}
use codecrafters_kafka_cpp.Core.Reader.{read_compact_array, deserialize_int32}
use codecrafters_kafka_cpp.Core.Reader.Decodes.{
  Decodes, Decodes-bind, Decodes-last, Decodes-pure, Decodes-be, Decodes-span,
}
use codecrafters_kafka_cpp.Core.Reader.Primitives.{Decodes-string, Decodes-array}
use codecrafters_kafka_cpp.Metadata.Topic.{
  TopicRecord, PartitionRecord, deserialize_topic, deserialize_partition,
}

unfoldable pub topic_bytes : TopicRecord → Bytes
topic_bytes t = string_bytes t.name ++ t.topic_id

abbrev pub int32_array : List ℕ → Bytes
int32_array = array_bytes (be_bytes 4)

unfoldable pub partition_bytes : PartitionRecord → Bytes
partition_bytes p =
    be_bytes 4 p.partition_id
    ++ (p.topic_id
        ++ (int32_array p.replicas
            ++ (int32_array p.isr
                ++ (int32_array p.removing_replicas
                    ++ (int32_array p.adding_replicas
                        ++ (be_bytes 4 p.leader
                            ++ (be_bytes 4 p.leader_epoch ++ be_bytes 4 p.partition_epoch)))))))

pub record FitsTopic (t : TopicRecord) : Type 0 where
  pub name : FitsLength (length t.name)
  pub topic_id : length t.topic_id ≡ 16

abbrev pub FitsInt32s : List ℕ → Type 0
FitsInt32s xs = FitsLength (length xs) × All (λ x. x < 2 ^ 32) xs

pub record FitsPartition (p : PartitionRecord) : Type 0 where
  pub partition_id : p.partition_id < 2 ^ 32
  pub topic_id : length p.topic_id ≡ 16
  pub replicas : FitsInt32s p.replicas
  pub isr : FitsInt32s p.isr
  pub removing_replicas : FitsInt32s p.removing_replicas
  pub adding_replicas : FitsInt32s p.adding_replicas
  pub leader : p.leader < 2 ^ 32
  pub leader_epoch : p.leader_epoch < 2 ^ 32
  pub partition_epoch : p.partition_epoch < 2 ^ 32

Decodes-int32 : (v : ℕ) → v < 2 ^ 32 → Decodes deserialize_int32 (be_bytes 4 v) v
unfolding deserialize_int32
Decodes-int32 v h = Decodes-be 4 v h

Decodes-int32s :
    (xs : List ℕ)
    → FitsInt32s xs
    → Decodes (read_compact_array deserialize_int32) (int32_array xs) xs
Decodes-int32s xs h =
    Decodes-array deserialize_int32 (be_bytes 4) xs h.0 (All-imp Decodes-int32 xs h.1)

pub Decodes-topic : (t : TopicRecord) → FitsTopic t → Decodes deserialize_topic (topic_bytes t) t
unfolding deserialize_topic topic_bytes
Decodes-topic t h = rw (← h.topic_id) (
    Decodes-bind _ _ t.name (Decodes-string t.name h.name)
      (Decodes-last _ _ t.topic_id (Decodes-span t.topic_id) (Decodes-pure t)))

pub Decodes-partition :
    (p : PartitionRecord) → FitsPartition p → Decodes deserialize_partition (partition_bytes p) p
unfolding deserialize_partition partition_bytes
Decodes-partition p h = rw (← h.topic_id) (
    Decodes-bind _ _ p.partition_id (Decodes-be 4 p.partition_id h.partition_id) (
      Decodes-bind _ _ p.topic_id (Decodes-span p.topic_id) (
        Decodes-bind _ _ p.replicas (Decodes-int32s p.replicas h.replicas) (
          Decodes-bind _ _ p.isr (Decodes-int32s p.isr h.isr) (
            Decodes-bind _ _ p.removing_replicas
              (Decodes-int32s p.removing_replicas h.removing_replicas)
              (Decodes-bind _ _ p.adding_replicas
                (Decodes-int32s p.adding_replicas h.adding_replicas)
                (Decodes-bind _ _ p.leader (Decodes-be 4 p.leader h.leader) (
                  Decodes-bind _ _ p.leader_epoch (Decodes-be 4 p.leader_epoch h.leader_epoch) (
                    Decodes-last _ _ p.partition_epoch
                      (Decodes-be 4 p.partition_epoch h.partition_epoch) (Decodes-pure p))))))))))
