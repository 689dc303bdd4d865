-- ===== src/Api/Controller/Fetch.antt =====
-- What Fetch answers.
use codecrafters_kafka_cpp.Common.{
  ℕ, ◌^◌, ◌<◌, ◌≡◌, refl, ◌⊎◌, inl, inr, List, [], ◌∷◌, ◌++◌, length, All, Pairs, none, some,
  Option-cases, Bytes, ok,
}
use codecrafters_kafka_cpp.Metadata.Topic.{TopicRecord}
use codecrafters_kafka_cpp.Metadata.Cache.{MetadataCache, get_topic_by_id}
use codecrafters_kafka_cpp.Storage.FileSystem.{FileSystem}
use codecrafters_kafka_cpp.Storage.LogFiles.{read_log_file}
use codecrafters_kafka_cpp.Storage.LogParser.{extract_records_from_offset}
use codecrafters_kafka_cpp.Storage.LogParser.Batches.{Batch, IsBatch, log_of}
use codecrafters_kafka_cpp.Storage.LogParser.Extract.{
  IsCut, from_offset, extract_records_from_offset-log_of,
}
use codecrafters_kafka_cpp.Api.Dto.Fetch.{
  FetchPartitionRequest, FetchTopicRequest, FetchRequest, FetchPartitionResponse,
  FetchTopicResponse, deserialize_fetch,
}
use codecrafters_kafka_cpp.Api.Dto.Request.{Request}
use codecrafters_kafka_cpp.Api.Dto.Response
use codecrafters_kafka_cpp.Api.Handler.{World, M, for_each}
use codecrafters_kafka_cpp.Api.Controller.{
  parse_body, fetched, extract_from, fetch_partition, fetch_partitions, fetch_topic,
  handle_fetch_partitions,
}

-- A loop whose rounds all leave the world alone gives a result for each element.
pub for_each-Pairs :
    {fs : FileSystem} {A B : Type 0} (R : A → B → Type 0) (f : A → M fs B) (w : World fs)
    → ((a : A) → (b : B) × (f a w ≡ ok (b, w)) × R a b)
    → (as' : List A) → (bs : List B) × (for_each f as' w ≡ ok (bs, w)) × Pairs R as' bs
unfolding for_each
for_each-Pairs R f w h [] = ([], refl, tt)
for_each-Pairs R f w h (a ∷ as') =
    let (b, e, r) = h a in
    let (bs, es, rs) = for_each-Pairs R f w h as' in (b ∷ bs, rw (e, es), (r, rs))

-- A log is a row of whole batches, the last of which may be followed by one that is cut off.
abbrev pub IsLog : Bytes → List Batch → Type 0
IsLog log bs =
    (tail : Bytes) × All IsBatch bs
    × IsCut tail
    × (length (log_of bs ++ tail) < 2 ^ 63)
    × (log ≡ log_of bs ++ tail)

module _ (fs : FileSystem) (cache : MetadataCache) (w : World fs) where
  -- Every log that can be read is one.
  abbrev pub LogsAreWhole : Type 0
  LogsAreWhole =
      (name : Bytes) (index : ℕ) (log : Bytes)
      → read_log_file fs name index w.files ≡ some log
      → (bs : List Batch) × IsLog log bs

  -- What the answer to one partition of a known topic has to be.
  abbrev pub FetchesPartition :
      TopicRecord → FetchPartitionRequest → FetchPartitionResponse → Type 0
  FetchesPartition topic req p =
      (p.partition_index ≡ req.index)
      × (p.error_code ≡ 0)
      × (((read_log_file fs topic.name req.index w.files ≡ none) × (p.records ≡ []))
          ⊎ ((log : Bytes) × (bs : List Batch) × (read_log_file fs topic.name req.index w.files
                ≡ some log)
              × IsLog log bs
              × (p.records ≡ log_of (from_offset req.fetch_offset bs))))

  -- What the answer to one topic has to be.
  abbrev pub FetchesTopic : FetchTopicRequest → FetchTopicResponse → Type 0
  FetchesTopic req t =
      (t.topic_id ≡ req.topic_id)
      × (((topic : TopicRecord) × (get_topic_by_id req.topic_id cache ≡ some topic)
            × Pairs (FetchesPartition topic) req.partitions t.partitions)
          ⊎ ((get_topic_by_id req.topic_id cache ≡ none) × (t.partitions ≡ fetched 0 100 [] ∷ [])))

  fetch_partition-answers :
      (topic : TopicRecord) (req : FetchPartitionRequest)
      → LogsAreWhole
      → (p : FetchPartitionResponse) × (fetch_partition fs cache topic req w ≡ ok (p, w))
        × FetchesPartition topic req p
  unfolding fetch_partition extract_from
  fetch_partition-answers topic req whole =
      elim (Option-cases (read_log_file fs topic.name req.index w.files)) [
        | inl missing ↦ (fetched req.index 0 [], rw missing, (refl, refl, inl (missing, refl)))
        | inr (log, found) ↦
            let (bs, (tail, batches, cut, small, shape)) = whole topic.name req.index log found in
            let records = log_of (from_offset req.fetch_offset bs) in
            let extracted : extract_records_from_offset log req.fetch_offset ≡ ok records =
              rw shape
                (extract_records_from_offset-log_of req.fetch_offset bs tail batches cut small) in
            (
              fetched req.index 0 records,
              rw (found, extracted),
              (refl, refl, inr (log, bs, found, (tail, batches, cut, small, shape), refl)),
            )
      ]

  fetch_topic-answers :
      (req : FetchTopicRequest)
      → LogsAreWhole
      → (t : FetchTopicResponse) × (fetch_topic fs cache req w ≡ ok (t, w)) × FetchesTopic req t
  unfolding fetch_topic fetch_partitions
  fetch_topic-answers req whole = elim (Option-cases (get_topic_by_id req.topic_id cache)) [
    | inl missing ↦ (
      record { topic_id = req.topic_id; partitions = fetched 0 100 [] ∷ [] },
      rw missing,
      (refl, inr (missing, refl)),
    )
    | inr (topic, found) ↦
        let (ps, e, r) =
          for_each-Pairs (FetchesPartition topic) (fetch_partition fs cache topic) w
            (λ p. fetch_partition-answers topic p whole) req.partitions in
        (
          record { topic_id = req.topic_id; partitions = ps },
          rw (found, e),
          (refl, inl (topic, found, r)),
        )
  ]

  -- Where every log that can be read is a row of batches, a request whose body is read as `req` is
  -- answered, with its correlation identifier: topic by topic and in their order, and within a known
  -- topic partition by partition, with the records from the offset asked for on; a topic that is not
  -- known has one partition, with the error 100. The world is left as it was.
  pub handle_fetch_partitions-answers :
      (request : Request) (req : FetchRequest)
      → parse_body deserialize_fetch request.body ≡ ok req
      → LogsAreWhole
      → (responses : List FetchTopicResponse) × (handle_fetch_partitions fs cache request w
          ≡ ok (
            record {
              correlation_id = request.header.correlation_id;
              body = Response.ResponseBody.fetch (record {
                throttle_time_ms = 0;
                error_code = 0;
                session_id = 0;
                responses = responses;
              });
            },
            w,
          ))
        × Pairs FetchesTopic req.topics responses
  unfolding handle_fetch_partitions
  handle_fetch_partitions-answers request req e whole =
      let (responses, es, r) =
        for_each-Pairs FetchesTopic (fetch_topic fs cache) w (λ t. fetch_topic-answers t whole)
          req.topics in
      (responses, rw (e, es), r)
