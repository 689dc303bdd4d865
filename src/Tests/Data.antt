-- ===== src/Tests/Data.antt =====
-- A file system, a cache and some logs to run the broker on.
use codecrafters_kafka_cpp.Common.{
  ◌≡◌, ◌≢◌, refl, ℕ, [], ◌∷◌, ◌++◌, true, false, Bool-cases, inl, inr, Option, none, some, Bytes,
  bytes_eq, bytes_eq→eq, bytes_eq_refl, if◌then◌else◌, ok,
}
use codecrafters_kafka_cpp.Metadata.Topic.{TopicRecord, PartitionRecord}
use codecrafters_kafka_cpp.Metadata.Cache.{MetadataCache}
use codecrafters_kafka_cpp.Storage.FileSystem.{FileSystem, content_of}
use codecrafters_kafka_cpp.Storage.LogFiles.Append.{IsReliable}

-- Files as a function of their paths.
abbrev pub memory : FileSystem
memory = record {
  State = Bytes → Option (Option Bytes);
  read_file = λ path s. s path;
  create_directories = λ path s. ok s;
  append_file = λ path bytes s.
      some (true, λ q. if bytes_eq q path then some (some (content_of (s path) ++ bytes)) else s q);
}

differs : (q path : Bytes) → q ≢ path → bytes_eq q path ≡ false
differs q path h = elim (Bool-cases (bytes_eq q path)) [
  | inl same ↦ absurd (h (bytes_eq→eq q path same))
  | inr other ↦ other
]

pub memory-IsReliable : IsReliable memory
memory-IsReliable = record {
  made = λ path s. (s, refl, λ file. refl);
  appended = λ path bytes s. (
    λ q. if bytes_eq q path then some (some (content_of (s path) ++ bytes)) else s q,
    refl,
    rw (bytes_eq_refl path),
    λ file h. rw (differs file path h),
  );
}

abbrev pub no_files : memory.State
no_files path = none

-- "foo" and its identifier.
abbrev pub foo : Bytes
foo = 102 ∷ 111 ∷ 111 ∷ []

abbrev pub foo_id : Bytes
foo_id = 1 ∷ 2 ∷ 3 ∷ 4 ∷ 5 ∷ 6 ∷ 7 ∷ 8 ∷ 9 ∷ 10 ∷ 11 ∷ 12 ∷ 13 ∷ 14 ∷ 15 ∷ 16 ∷ []

abbrev pub foo_topic : TopicRecord
foo_topic = record { name = foo; topic_id = foo_id }

abbrev pub foo_partition : ℕ → PartitionRecord
foo_partition index = record {
  partition_id = index;
  topic_id = foo_id;
  replicas = 1 ∷ [];
  isr = 1 ∷ [];
  removing_replicas = [];
  adding_replicas = [];
  leader = 1;
  leader_epoch = 0;
  partition_epoch = 0;
}

-- One topic, "foo", with the partitions 0 and 1.
abbrev pub foo_cache : MetadataCache
foo_cache = record {
  topics_by_name = (foo, foo_topic) ∷ [];
  partitions_by_id = (foo_id, foo_partition 0 ∷ foo_partition 1 ∷ []) ∷ [];
}
