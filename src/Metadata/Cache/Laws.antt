-- ===== src/Metadata/Cache/Laws.antt =====
-- The metadata cache as a map: what a lookup finds after an insertion, and how its entries fit.
use mathlib.Core.Path.{subst}
use codecrafters_kafka_cpp.Common.{
  ◌≡◌, ◌≢◌, refl, sym, ap, ap₂, inl, inr, false, Bool-cases, List, [], ◌∷◌, ◌++◌, All, All-append,
  Option-cases, none, some, Bytes, bytes_eq, bytes_eq_iff, bytes_eq→eq, if◌then◌else◌, arith,
}
use codecrafters_kafka_cpp.Metadata.Topic.{TopicRecord, PartitionRecord}
use codecrafters_kafka_cpp.Metadata.Cache.{
  MetadataCache, assign, find, found_or_empty, add_topic, add_partition, get_topic_by_name,
  find_by_id, get_topic_by_id, get_partitions,
}

module _ {V : Type 0} where
  pub find-assign :
      (key j : Bytes) (v : V) (m : List (Bytes × V))
      → find j (assign key v m) ≡ (if bytes_eq key j then some v else find j m)
  unfolding find assign
  find-assign key j v [] = refl
  find-assign key j v ((k, w) ∷ m) =
      ground
        (arith, bytes_eq_iff k key, bytes_eq_iff k j, bytes_eq_iff key j, find-assign key j v m)

  -- Each key stands once.
  abbrev pub IsUnique : List (Bytes × V) → Type 0
  IsUnique [] = Unit {0}
  IsUnique ((k, v) ∷ m) = (find k m ≡ none) × IsUnique m

  pub assign-IsUnique :
      (key : Bytes) (v : V) (m : List (Bytes × V)) → IsUnique m → IsUnique (assign key v m)
  unfolding assign find
  assign-IsUnique key v [] h = (refl, tt)
  assign-IsUnique key v ((k, w) ∷ m) h = elim (Bool-cases (bytes_eq k key)) [
    | inl same ↦ rw same h
    | inr other ↦ rw other (
      ground (arith, find-assign key k v m, bytes_eq_iff k key, bytes_eq_iff key k),
      assign-IsUnique key v m h.1,
    )
  ]

  pub assign-All {κ} :
      (P : Bytes × V → Type κ) (key : Bytes) (v : V) (m : List (Bytes × V))
      → P (key, v)
      → All P m
      → All P (assign key v m)
  unfolding assign
  assign-All P key v [] p h = (p, tt)
  assign-All P key v ((k, w) ∷ m) p h = elim (Bool-cases (bytes_eq k key)) [
    | inl same ↦ rw same (rw (sym (bytes_eq→eq k key same)) at p, h.1)
    | inr other ↦ rw other (h.0, assign-All P key v m p h.1)
  ]

  pub find-All :
      (P : Bytes × V → Type 0) (key : Bytes) (m : List (Bytes × V)) (v : V)
      → All P m
      → find key m ≡ some v
      → P (key, v)
  unfolding find
  find-All P key [] v h e = cc
  find-All P key ((k, w) ∷ m) v h e = elim (Bool-cases (bytes_eq k key)) [
    | inl same ↦
        let found : w ≡ v = ground arith in
        subst P (ap₂ (λ (a : Bytes) (b : V). (a, b)) (bytes_eq→eq k key same) found) h.0
    | inr other ↦ find-All P key m v h.1 (rw other at e)
  ]

-- Topics stand under their names and partitions under the identifiers of their topics, each key once.
pub record IsConsistent (cache : MetadataCache) : Type 0 where
  pub topic_keys : IsUnique cache.topics_by_name
  pub named : All (λ e. e.0 ≡ e.1.name) cache.topics_by_name
  pub partition_keys : IsUnique cache.partitions_by_id
  pub owned : All (λ e. All (λ p. p.topic_id ≡ e.0) e.1) cache.partitions_by_id

-- In a consistent cache, adding a topic leaves it consistent.
pub add_topic-IsConsistent :
    (r : TopicRecord) (cache : MetadataCache)
    → IsConsistent cache
    → IsConsistent (add_topic r cache)
unfolding add_topic
add_topic-IsConsistent r cache c = record {
  topic_keys = assign-IsUnique r.name r cache.topics_by_name c.topic_keys;
  named = assign-All (λ e. e.0 ≡ e.1.name) r.name r cache.topics_by_name refl c.named;
  partition_keys = c.partition_keys;
  owned = c.owned;
}

found_or_empty-owned :
    (id : Bytes) (m : List (Bytes × List PartitionRecord))
    → All (λ e. All (λ p. p.topic_id ≡ e.0) e.1) m
    → All (λ p. p.topic_id ≡ id) (found_or_empty (find id m))
found_or_empty-owned id m h = elim (Option-cases (find id m)) [
  | inl missing ↦ rw missing tt
  | inr (ps, found) ↦ rw found (find-All (λ e. All (λ p. p.topic_id ≡ e.0) e.1) id m ps h found)
]

-- A lookup by name after a topic is added: the new record under its name, and any other name as
-- before. The partitions stay.
pub add_topic-lookup :
    (r : TopicRecord) (cache : MetadataCache) (name id : Bytes)
    → (get_topic_by_name name (add_topic r cache)
        ≡ (if bytes_eq r.name name then some r else get_topic_by_name name cache))
      × (get_partitions id (add_topic r cache) ≡ get_partitions id cache)
unfolding get_topic_by_name add_topic get_partitions
add_topic-lookup r cache name id = (find-assign r.name name r cache.topics_by_name, refl)

-- A lookup of partitions after one is added: it is the last of its topic's, those of any other topic
-- are as before, and so is every topic.
pub add_partition-lookup :
    (r : PartitionRecord) (cache : MetadataCache) (id name : Bytes)
    → (get_partitions id (add_partition r cache) ≡ (
        if bytes_eq r.topic_id id
        then get_partitions id cache ++ r ∷ []
        else get_partitions id cache))
      × (get_topic_by_name name (add_partition r cache) ≡ get_topic_by_name name cache)
unfolding get_partitions add_partition get_topic_by_name
add_partition-lookup r cache id name = elim (Bool-cases (bytes_eq r.topic_id id)) [
  | inl same ↦ (
    rw (find-assign r.topic_id id _ cache.partitions_by_id, same, bytes_eq→eq r.topic_id id same),
    refl,
  )
  | inr other ↦ (rw (find-assign r.topic_id id _ cache.partitions_by_id, other), refl)
]

add_partition-IsConsistent :
    (r : PartitionRecord) (cache : MetadataCache)
    → IsConsistent cache
    → IsConsistent (add_partition r cache)
unfolding add_partition
add_partition-IsConsistent r cache c =
    let m = cache.partitions_by_id in
    let old = found_or_empty (find r.topic_id m) in
    record {
      topic_keys = c.topic_keys;
      named = c.named;
      partition_keys = assign-IsUnique r.topic_id (old ++ r ∷ []) m c.partition_keys;
      owned =
          assign-All (λ e. All (λ p. p.topic_id ≡ e.0) e.1) r.topic_id (old ++ r ∷ []) m
            (All-append (λ p. p.topic_id ≡ r.topic_id) old (r ∷ [])
              (found_or_empty-owned r.topic_id m c.owned) (refl, tt))
            c.owned;
    }

-- In a consistent cache, a partition that is added is from then on the last of those of its own topic;
-- those of any other topic, and what is found under any name, are as before; and the cache stays
-- consistent.
pub get_partitions-add_partition :
    (r : PartitionRecord) (cache : MetadataCache) (id name : Bytes)
    → IsConsistent cache
    → id ≢ r.topic_id
    → IsConsistent (add_partition r cache)
      × (get_partitions r.topic_id (add_partition r cache)
          ≡ get_partitions r.topic_id cache ++ r ∷ [])
      × (get_partitions id (add_partition r cache) ≡ get_partitions id cache)
      × (get_topic_by_name name (add_partition r cache) ≡ get_topic_by_name name cache)
get_partitions-add_partition r cache id name c differs = (
  add_partition-IsConsistent r cache c,
  rw ((bytes_eq_iff r.topic_id r.topic_id).1 refl) at
      (add_partition-lookup r cache r.topic_id name).0,
  elim (Bool-cases (bytes_eq r.topic_id id)) [
    | inl same ↦ absurd (differs (sym (bytes_eq→eq r.topic_id id same)))
    | inr other ↦ rw other at (add_partition-lookup r cache id name).0
  ],
  (add_partition-lookup r cache id name).1,
)

find_by_id-found :
    (id : Bytes) (m : List (Bytes × TopicRecord)) (t : TopicRecord)
    → IsUnique m
    → All (λ e. e.0 ≡ e.1.name) m
    → find_by_id id m ≡ some t
    → (t.topic_id ≡ id) × (find t.name m ≡ some t)
unfolding find_by_id find
find_by_id-found id [] t u h e = cc
find_by_id-found id ((k, s) ∷ m) t u h e = elim (Bool-cases (bytes_eq s.topic_id id)) [
  | inl same ↦ ground (arith, bytes_eq_iff s.topic_id id, bytes_eq_iff k t.name)
  | inr other ↦
      let (has_id, listed) = find_by_id-found id m t u.1 h.1 (rw other at e) in
      let apart : bytes_eq k t.name ≡ false = elim (Bool-cases (bytes_eq k t.name)) [
        | inl same ↦ cc (u.0, listed, ap (λ (n : Bytes). find n m) (bytes_eq→eq k t.name same))
        | inr differs ↦ differs
      ] in
      (has_id, rw apart listed)
]

find_by_id-missing :
    (id : Bytes) (m : List (Bytes × TopicRecord))
    → find_by_id id m ≡ none
    → All (λ e. e.1.topic_id ≢ id) m
unfolding find_by_id
find_by_id-missing id [] e = tt
find_by_id-missing id ((k, s) ∷ m) e = elim (Bool-cases (bytes_eq s.topic_id id)) [
  | inl same ↦ absurd (cc (rw same at e))
  | inr other ↦
      (λ q. cc (other, (bytes_eq_iff s.topic_id id).1 q), find_by_id-missing id m (rw other at e))
]

-- In a consistent cache a topic that is found by an identifier has that identifier, and is what a
-- lookup by its name finds too.
pub get_topic_by_id-found :
    (id : Bytes) (cache : MetadataCache) (t : TopicRecord)
    → IsConsistent cache
    → get_topic_by_id id cache ≡ some t
    → (t.topic_id ≡ id) × (get_topic_by_name t.name cache ≡ some t)
unfolding get_topic_by_id get_topic_by_name
get_topic_by_id-found id cache t c e =
    find_by_id-found id cache.topics_by_name t c.topic_keys c.named e
