-- ===== src/Api/Controller/Produce.antt =====
-- What Produce answers and writes, over a file system that works.
use codecrafters_kafka_cpp.Common.{
  ℕ, ◌≡◌, ◌≢◌, refl, ◌∙◌, ◌⊎◌, inl, inr, Any, arith, List, [], ◌∷◌, ◌++◌, append-nil, sym, true,
  false, Bool-cases, Option, none, some, Option-cases, Bytes, ok,
}
use codecrafters_kafka_cpp.Metadata.Topic.{TopicRecord, PartitionRecord}
use codecrafters_kafka_cpp.Metadata.Cache.{MetadataCache, get_topic_by_name, get_partitions}
use codecrafters_kafka_cpp.Storage.FileSystem.{FileSystem}
use codecrafters_kafka_cpp.Storage.LogFiles.{file_path, read_log_file}
use codecrafters_kafka_cpp.Storage.LogFiles.Append.{
  IsReliable, log_content, append_to_log-read_log_file,
}
use codecrafters_kafka_cpp.Api.Dto.Produce.{
  ProducePartitionRequest, ProduceTopicRequest, ProducePartitionResponse, ProduceTopicResponse,
  ProduceRequest, deserialize_produce,
}
use codecrafters_kafka_cpp.Api.Dto.Request.{Request}
use codecrafters_kafka_cpp.Api.Dto.Response
use codecrafters_kafka_cpp.Api.Handler.{World, M, for_each}
use codecrafters_kafka_cpp.Api.Controller.{
  parse_body, produced, rejected, has_partition, append_records, produce_partition, produce_topic,
  handle_produce,
}

-- Steps one after the other, each from the world that the one before it has left.
abbrev pub Chain :
    {fs : FileSystem} {A B : Type 0}
    → (A → World fs → B → World fs → Type 0)
    → List A
    → World fs
    → List B
    → World fs
    → Type 0
Chain R [] w [] w' = w' ≡ w
Chain R [] w (b ∷ bs) w' = ⊥
Chain R (a ∷ as') w [] w' = ⊥
Chain {fs} R (a ∷ as') w (b ∷ bs) w' = (v : World fs) × R a w b v × Chain R as' v bs w'

for_each-Chain :
    {fs : FileSystem} {A B : Type 0} (R : A → World fs → B → World fs → Type 0) (f : A → M fs B)
    → ((a : A) (w : World fs) → (b : B) × (w' : World fs) × (f a w ≡ ok (b, w')) × R a w b w')
    → (as' : List A) (w : World fs)
    → (bs : List B) × (w' : World fs) × (for_each f as' w ≡ ok (bs, w')) × Chain R as' w bs w'
unfolding for_each
for_each-Chain R f h [] w = ([], w, refl, refl)
for_each-Chain R f h (a ∷ as') w =
    let (b, v, e, r) = h a w in
    let (bs, w', e', rs) = for_each-Chain R f h as' v in (b ∷ bs, w', rw (e, e'), (v, r, rs))

-- The records that a partition request brings.
abbrev pub records_of : Option Bytes → Bytes
records_of none = []
records_of (some records) = records

-- One of the partitions has the index.
abbrev pub Lists : ℕ → List PartitionRecord → Type 0
Lists index ps = Any (λ (p : PartitionRecord). p.partition_id ≡ index) ps

pub has_partition→Lists :
    (index : ℕ) (ps : List PartitionRecord) → has_partition index ps ≡ true → Lists index ps
unfolding has_partition
has_partition→Lists index [] h = cc
has_partition→Lists index (p ∷ ps) h = ground (arith, has_partition→Lists index ps)

Lists→has_partition :
    (index : ℕ) (ps : List PartitionRecord) → Lists index ps → has_partition index ps ≡ true
unfolding has_partition
Lists→has_partition index [] h = elim h [ ]
Lists→has_partition index (p ∷ ps) (inl same) = ground (arith, same)
Lists→has_partition index (p ∷ ps) (inr h) = ground (arith, Lists→has_partition index ps h)

-- The cache knows the topic, and the topic has the partition.
abbrev pub Knows : MetadataCache → Bytes → ℕ → Type 0
Knows cache name index =
    (topic : TopicRecord) × (get_topic_by_name name cache ≡ some topic)
    × Lists index (get_partitions topic.topic_id cache)

abbrev pub Misses : MetadataCache → Bytes → ℕ → Type 0
Misses cache name index =
    (topic : TopicRecord)
    → get_topic_by_name name cache ≡ some topic
    → ¬ Lists index (get_partitions topic.topic_id cache)

-- What has to become of a request for one partition: a known one gets its records behind its log,
-- every log at another path stays, and the answer is without an error; any other one is answered
-- with error 3, and nothing changes. Nothing is printed.
abbrev pub Produces :
    {fs : FileSystem}
    → MetadataCache
    → Bytes
    → ProducePartitionRequest
    → World fs
    → ProducePartitionResponse
    → World fs
    → Type 0
Produces {fs} cache name req w res w' =
    (w'.console ≡ w.console)
    × ((Knows cache name req.index
          × (res ≡ produced req.index 0 0 0)
          × (log_content fs name req.index w'.files
              ≡ log_content fs name req.index w.files ++ records_of req.records)
          × ((name' : Bytes) (index' : ℕ)
              → file_path name' index' ≢ file_path name req.index
              → read_log_file fs name' index' w'.files ≡ read_log_file fs name' index' w.files))
        ⊎ (Misses cache name req.index × (res ≡ rejected req.index) × (w' ≡ w)))

abbrev pub ProducesTopic :
    {fs : FileSystem}
    → MetadataCache
    → ProduceTopicRequest
    → World fs
    → ProduceTopicResponse
    → World fs
    → Type 0
ProducesTopic cache req w res w' =
    (res.name ≡ req.name) × Chain (Produces cache req.name) req.partitions w res.partitions w'

module _ (cache : MetadataCache) where
  pub Misses-topic :
      (name : Bytes) (index : ℕ) → get_topic_by_name name cache ≡ none → Misses cache name index
  Misses-topic name index missing topic found = cc

  pub Misses-partition :
      (name : Bytes) (index : ℕ) (topic : TopicRecord)
      → get_topic_by_name name cache ≡ some topic
      → has_partition index (get_partitions topic.topic_id cache) ≡ false
      → Misses cache name index
  Misses-partition name index topic found unknown other_topic same listed =
      let e : some topic ≡ some other_topic = sym found ∙ same in
      let known = Lists→has_partition index (get_partitions other_topic.topic_id cache) listed in cc

module _ {fs : FileSystem} (reliable : IsReliable fs) (cache : MetadataCache) where
  append_records-log :
      (name : Bytes) (index : ℕ) (records : Option Bytes) (w : World fs)
      → (w' : World fs) × (append_records fs cache name index records w ≡ ok (tt, w'))
        × (w'.console ≡ w.console)
        × (log_content fs name index w'.files
            ≡ log_content fs name index w.files ++ records_of records)
        × ((name' : Bytes) (index' : ℕ)
            → file_path name' index' ≢ file_path name index
            → read_log_file fs name' index' w'.files ≡ read_log_file fs name' index' w.files)
  unfolding append_records
  append_records-log name index none w = (w, refl, refl, sym (append-nil _), λ name' index' h. refl)
  append_records-log name index (some records) w =
      let (files, e, grown, others) =
        append_to_log-read_log_file fs name index records w.files reliable in
      (record w { files = files }, rw e, refl, grown, others)

module _ {fs : FileSystem} (reliable : IsReliable fs) (cache : MetadataCache) where
  produce_partition-Produces :
      (name : Bytes) (req : ProducePartitionRequest) (w : World fs)
      → (res : ProducePartitionResponse) × (w' : World fs) × (produce_partition fs cache name
            (get_topic_by_name name cache)
            req
            w
          ≡ ok (res, w'))
        × Produces cache name req w res w'
  unfolding produce_partition
  produce_partition-Produces name req w = elim (Option-cases (get_topic_by_name name cache)) [
    | inl missing ↦ (
      rejected req.index,
      w,
      rw missing,
      (refl, inr (Misses-topic cache name req.index missing, refl, refl)),
    )
    | inr (topic, found) ↦
        elim (Bool-cases (has_partition req.index (get_partitions topic.topic_id cache))) [
          | inl known ↦
              let (w', e, quiet, grown, others) =
                append_records-log reliable cache name req.index req.records w in
              (
                produced req.index 0 0 0,
                w',
                rw (found, known, e),
                (
                  quiet,
                  inl ((topic, found, has_partition→Lists req.index _ known), refl, grown, others),
                ),
              )
          | inr unknown ↦ (
            rejected req.index,
            w,
            rw (found, unknown),
            (refl, inr (Misses-partition cache name req.index topic found unknown, refl, refl)),
          )
        ]
  ]

  produce_topic-ProducesTopic :
      (req : ProduceTopicRequest) (w : World fs)
      → (res : ProduceTopicResponse) × (w' : World fs) × (produce_topic fs cache req w
          ≡ ok (res, w'))
        × ProducesTopic cache req w res w'
  unfolding produce_topic
  produce_topic-ProducesTopic req w =
      let (bs, w', e, chain) =
        for_each-Chain (Produces cache req.name) _ (produce_partition-Produces req.name)
          req.partitions w in
      (record { name = req.name; partitions = bs }, w', rw e, (refl, chain))

  -- Over a file system without failures, a request whose body is read as `req` is answered, with its
  -- correlation identifier, by one response for each topic and each of its partitions, in the
  -- order of the request. The records of each partition that the cache has go behind its log, and
  -- its answer has no error; one that the cache does not have is answered with error 3 and writes
  -- nothing. Each step begins in the state that the one before it has left.
  pub handle_produce-answers :
      (request : Request) (req : ProduceRequest) (w : World fs)
      → parse_body deserialize_produce request.body ≡ ok req
      → (responses : List ProduceTopicResponse) × (w' : World fs) × (handle_produce fs cache request
            w
          ≡ ok (
            record {
              correlation_id = request.header.correlation_id;
              body =
                  Response.ResponseBody.produce
                    (record { responses = responses; throttle_time_ms = 0 });
            },
            w',
          ))
        × Chain (ProducesTopic cache) req.topics w responses w'
  unfolding handle_produce
  handle_produce-answers request req w parsed =
      let (bs, w', e, chain) =
        for_each-Chain (ProducesTopic cache) _ produce_topic-ProducesTopic req.topics w in
      (bs, w', rw (parsed, e), chain)
