-- ===== src/Tests/Topics.antt =====
-- The metadata cache.
use codecrafters_kafka_cpp.Common.{◌≡◌, refl, [], ◌∷◌, ◌++◌, some}
use codecrafters_kafka_cpp.Metadata.Cache.{
  find, add_topic, add_partition, get_topic_by_name, get_topic_by_id, get_partitions, find_by_id,
  assign,
}
use codecrafters_kafka_cpp.Metadata.Cache.Laws.{
  IsConsistent, add_topic-IsConsistent, get_partitions-add_partition, get_topic_by_id-found,
}
use codecrafters_kafka_cpp.Tests.Data.{foo, foo_id, foo_topic, foo_partition, foo_cache}

pub foo_cache-IsConsistent : IsConsistent foo_cache
unfolding find
foo_cache-IsConsistent = record {
  topic_keys = (refl, tt);
  named = (refl, tt);
  partition_keys = (refl, tt);
  owned = ((refl, (refl, tt)), tt);
}

add_topic-IsConsistent_example : IsConsistent (add_topic foo_topic foo_cache)
add_topic-IsConsistent_example = add_topic-IsConsistent foo_topic foo_cache foo_cache-IsConsistent

get_partitions-add_partition_example :
    IsConsistent (add_partition (foo_partition 2) foo_cache)
    × (get_partitions foo_id (add_partition (foo_partition 2) foo_cache)
        ≡ get_partitions foo_id foo_cache ++ foo_partition 2 ∷ [])
    × (get_partitions [] (add_partition (foo_partition 2) foo_cache) ≡ get_partitions [] foo_cache)
    × (get_topic_by_name foo (add_partition (foo_partition 2) foo_cache)
        ≡ get_topic_by_name foo foo_cache)
get_partitions-add_partition_example =
    get_partitions-add_partition (foo_partition 2) foo_cache [] foo foo_cache-IsConsistent (λ e. cc)

pub foo_by_id : get_topic_by_id foo_id foo_cache ≡ some foo_topic
unfolding get_topic_by_id find_by_id
foo_by_id = refl

get_topic_by_id-found_example :
    (foo_id ≡ foo_id) × (get_topic_by_name foo foo_cache ≡ some foo_topic)
get_topic_by_id-found_example =
    get_topic_by_id-found foo_id foo_cache foo_topic foo_cache-IsConsistent foo_by_id

-- A third partition comes behind the two.
three_partitions :
    get_partitions foo_id (add_partition (foo_partition 2) foo_cache)
    ≡ foo_partition 0 ∷ foo_partition 1 ∷ foo_partition 2 ∷ []
unfolding get_partitions add_partition find assign
three_partitions = refl
