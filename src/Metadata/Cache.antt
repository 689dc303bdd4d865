-- ===== src/Metadata/Cache.antt =====
-- src/metadata/cache.hpp. The maps are association lists with each key once; the order of an
-- `unordered_map`, which the program leaves open, is the order of the list.
pub mod Laws
use codecrafters_kafka_cpp.Common.{
  ℕ, List, [], ◌∷◌, ◌++◌, Option, none, some, Bytes, length, bytes_eq, if◌then◌else◌,
}
use codecrafters_kafka_cpp.Metadata.Topic.{TopicRecord, PartitionRecord}

pub record MetadataCache : Type 0 where
  pub topics_by_name : List (Bytes × TopicRecord)
  pub partitions_by_id : List (Bytes × List PartitionRecord)

abbrev pub empty_cache : MetadataCache
empty_cache = record { topics_by_name = []; partitions_by_id = [] }

module _ {V : Type 0} where
  -- `map[key] = value`
  unfoldable pub assign : Bytes → V → List (Bytes × V) → List (Bytes × V)
  assign key value [] = (key, value) ∷ []
  assign key value ((k, v) ∷ m) =
      if bytes_eq k key then (k, value) ∷ m else (k, v) ∷ assign key value m

  -- `map.find(key)`
  unfoldable pub find : Bytes → List (Bytes × V) → Option V
  find key [] = none
  find key ((k, v) ∷ m) = if bytes_eq k key then some v else find key m

-- `map[key]` on a map of vectors, which a missing key makes empty.
abbrev pub found_or_empty : Option (List PartitionRecord) → List PartitionRecord
found_or_empty none = []
found_or_empty (some partitions) = partitions

unfoldable pub add_topic : TopicRecord → MetadataCache → MetadataCache
add_topic r cache = record cache { topics_by_name = assign r.name r cache.topics_by_name }

unfoldable pub add_partition : PartitionRecord → MetadataCache → MetadataCache
add_partition r cache =
    let old = found_or_empty (find r.topic_id cache.partitions_by_id) in
    record cache { partitions_by_id = assign r.topic_id (old ++ r ∷ []) cache.partitions_by_id }

unfoldable pub num_of_topics : MetadataCache → ℕ
num_of_topics cache = length cache.topics_by_name

unfoldable pub get_topic_by_name : Bytes → MetadataCache → Option TopicRecord
get_topic_by_name name cache = find name cache.topics_by_name

-- `std::ranges::find_if` on the identifiers of the values.
unfoldable pub find_by_id : Bytes → List (Bytes × TopicRecord) → Option TopicRecord
find_by_id target [] = none
find_by_id target ((k, t) ∷ m) = if bytes_eq t.topic_id target then some t else find_by_id target m

unfoldable pub get_topic_by_id : Bytes → MetadataCache → Option TopicRecord
get_topic_by_id target_topic_id cache = find_by_id target_topic_id cache.topics_by_name

unfoldable pub get_partitions : Bytes → MetadataCache → List PartitionRecord
get_partitions topic_id cache = found_or_empty (find topic_id cache.partitions_by_id)
