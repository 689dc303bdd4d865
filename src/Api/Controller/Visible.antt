-- ===== src/Api/Controller/Visible.antt =====
-- Produce and then Fetch: what one has written the other answers.
use codecrafters_kafka_cpp.Common.{
  ℕ, ◌^◌, ◌<◌, ◌≡◌, refl, sym, ap, ◌∙◌, inl, inr, List, [], ◌∷◌, ◌++◌, append_assoc, append-nil,
  All, length, length-append, true, Option, none, some, Bytes, ok, arith,
}
use codecrafters_kafka_cpp.Metadata.Topic.{TopicRecord}
use codecrafters_kafka_cpp.Metadata.Cache.{MetadataCache, get_topic_by_id, get_partitions}
use codecrafters_kafka_cpp.Metadata.Cache.Laws.{IsConsistent, get_topic_by_id-found}
use codecrafters_kafka_cpp.Storage.FileSystem.{FileSystem, content_of}
use codecrafters_kafka_cpp.Storage.LogFiles.{file_path, buffer_of, read_log_file}
use codecrafters_kafka_cpp.Storage.LogFiles.Append.{IsReliable, log_content}
use codecrafters_kafka_cpp.Storage.LogParser.{extract_records_from_offset}
use codecrafters_kafka_cpp.Storage.LogParser.Batches.{
  Batch, IsBatch, log_of, batch_bytes, length-batch_bytes,
}
use codecrafters_kafka_cpp.Storage.LogParser.Extract.{
  from_offset, extract_records_from_offset-log_of,
}
use codecrafters_kafka_cpp.Api.Dto.Fetch.{FetchPartitionRequest, FetchRequest, deserialize_fetch}
use codecrafters_kafka_cpp.Api.Dto.Produce.{
  ProducePartitionRequest, ProducePartitionResponse, ProduceTopicResponse, ProduceRequest,
  deserialize_produce,
}
use codecrafters_kafka_cpp.Api.Dto.Request.{Request}
use codecrafters_kafka_cpp.Api.Dto.Response
use codecrafters_kafka_cpp.Api.Dto.Response.{Response}
use codecrafters_kafka_cpp.Api.Handler.{World, for_each}
use codecrafters_kafka_cpp.Api.Controller.{
  parse_body, produced, fetched, has_partition, extract_from, fetch_partition, fetch_partitions,
  fetch_topic, handle_fetch_partitions, handle_produce,
}
use codecrafters_kafka_cpp.Api.Controller.Produce.{
  Chain, Knows, has_partition→Lists, Produces, ProducesTopic, records_of, handle_produce-answers,
}

pub log_of-append : (bs cs : List Batch) → log_of (bs ++ cs) ≡ log_of bs ++ log_of cs
unfolding log_of
log_of-append [] cs = refl
log_of-append (b ∷ bs) cs =
    ap (λ (t : Bytes). batch_bytes b ++ t) (log_of-append bs cs)
    ∙ sym (append_assoc (batch_bytes b) (log_of bs) (log_of cs))

-- Only the empty row of batches has no bytes.
from_offset-empty :
    (target : ℕ) (bs : List Batch) → [] ≡ log_of bs → [] ≡ log_of (from_offset target bs)
unfolding log_of from_offset
from_offset-empty target [] e = refl
from_offset-empty target (b ∷ bs) e =
    let size : 0 ≡ length (batch_bytes b ++ log_of bs) = ap (λ (t : Bytes). length t) e in
    absurd (omega (arith, size, length-append (batch_bytes b) (log_of bs), length-batch_bytes b))

-- A run over one element.
Chain-one :
    {fs : FileSystem} {A B : Type 0} (R : A → World fs → B → World fs → Type 0) (a : A)
    (bs : List B) (w w' : World fs)
    → Chain R (a ∷ []) w bs w'
    → (b : B) × (bs ≡ b ∷ []) × R a w b w'
Chain-one R a [] w w' c = elim c [ ]
Chain-one R a (b ∷ []) w w' (v, r, e) = (b, refl, rw (sym e) at r)
Chain-one R a (b ∷ b' ∷ bs) w w' (v, r, c) = elim c [ ]

-- The responses to requests for one partition: its records, and that its records are accepted.
abbrev pub records_response : Request → Bytes → ℕ → Bytes → Response
records_response request id index records = record {
  correlation_id = request.header.correlation_id;
  body = Response.ResponseBody.fetch (record {
    throttle_time_ms = 0;
    error_code = 0;
    session_id = 0;
    responses = record { topic_id = id; partitions = fetched index 0 records ∷ [] } ∷ [];
  });
}

abbrev pub accepted_response : Request → Bytes → ℕ → Response
accepted_response request name index = record {
  correlation_id = request.header.correlation_id;
  body = Response.ResponseBody.produce (record {
    responses = record { name = name; partitions = produced index 0 0 0 ∷ [] } ∷ [];
    throttle_time_ms = 0;
  });
}

module _ (fs : FileSystem) (cache : MetadataCache) where
  -- The records of a log that is a row of batches, or is not there and the row is empty.
  extract_from-log_content :
      (name : Bytes) (index target : ℕ) (s : fs.State) (bs : List Batch)
      → log_content fs name index s ≡ log_of bs
      → All IsBatch bs
      → length (log_of bs) < 2 ^ 63
      → extract_from (read_log_file fs name index s) target ≡ ok (log_of (from_offset target bs))
  unfolding read_log_file extract_from
  extract_from-log_content name index target s bs e h small =
      from (fs.read_file (file_path name index) s) e
    where
      from :
          (r : Option (Option Bytes))
          → content_of r ≡ log_of bs
          → extract_from (buffer_of r) target ≡ ok (log_of (from_offset target bs))
      from none e = ap ok (from_offset-empty target bs e)
      from (some none) e = ap ok (from_offset-empty target bs e)
      from (some (some buffer)) e =
          ap (λ (log : Bytes). extract_records_from_offset log target) (e ∙ sym (append-nil _))
          ∙ extract_records_from_offset-log_of target bs [] h (inl (omega arith))
              (rw (← append-nil (log_of bs)) at small)

  -- A Fetch of one partition of a known topic whose log is a row of batches.
  pub handle_fetch_partitions-one :
      (request : Request) (freq : FetchRequest) (req : FetchPartitionRequest) (topic : TopicRecord)
      (id : Bytes) (bs : List Batch) (w : World fs)
      → parse_body deserialize_fetch request.body ≡ ok freq
      → freq.topics ≡ record { topic_id = id; partitions = req ∷ [] } ∷ []
      → get_topic_by_id id cache ≡ some topic
      → log_content fs topic.name req.index w.files ≡ log_of bs
      → All IsBatch bs
      → length (log_of bs) < 2 ^ 63
      → handle_fetch_partitions fs cache request w
        ≡ ok (records_response request id req.index (log_of (from_offset req.fetch_offset bs)), w)
  unfolding handle_fetch_partitions fetch_topic fetch_partitions fetch_partition for_each
  handle_fetch_partitions-one request freq req topic id bs w parsed shape found held h small = rw (
    parsed,
    shape,
    found,
    extract_from-log_content topic.name req.index req.fetch_offset w.files bs held h small,
  )

-- A Produce for one partition of a known topic.
module _ {fs : FileSystem} (reliable : IsReliable fs) (cache : MetadataCache) where
  one_response :
      (name : Bytes) (req : ProducePartitionRequest) (responses : List ProduceTopicResponse)
      (w w' : World fs)
      → Chain
          (ProducesTopic cache)
          (record { name = name; partitions = req ∷ [] } ∷ [])
          w
          responses
          w'
      → (p : ProducePartitionResponse) × (responses
          ≡ record { name = name; partitions = p ∷ [] } ∷ [])
        × Produces cache name req w p w'
  one_response name req responses w w' chain =
      let (t, alone, (named, inner)) =
        Chain-one (ProducesTopic cache) (record { name = name; partitions = req ∷ [] }) responses w
          w' chain in
      let (p, one_partition, outcome) =
        Chain-one (Produces cache name) req t.partitions w w' inner in
      let same : t ≡ record { name = name; partitions = p ∷ [] } =
        λ i. record { name = named i; partitions = one_partition i } in
      (p, alone ∙ ap (λ (x : ProduceTopicResponse). x ∷ []) same, outcome)

  -- A known partition is accepted.
  accepted_if_known :
      (name : Bytes) (req : ProducePartitionRequest) (p : ProducePartitionResponse)
      (w w' : World fs)
      → Knows cache name req.index
      → Produces cache name req w p w'
      → (p ≡ produced req.index 0 0 0)
        × (log_content fs name req.index w'.files
            ≡ log_content fs name req.index w.files ++ records_of req.records)
  accepted_if_known name req p w w' known (quiet, inl (k, accepted, grown, others)) =
      (accepted, grown)
  accepted_if_known name req p w w' (topic, found, listed) (quiet, inr (misses, refused, same)) =
      absurd (misses topic found listed)

  pub handle_produce-one :
      (request : Request) (preq : ProduceRequest) (name : Bytes) (index : ℕ) (records : Bytes)
      (w : World fs)
      → parse_body deserialize_produce request.body ≡ ok preq
      → preq.topics
        ≡ record { name = name; partitions = record { index = index; records = some records } ∷ [] }
          ∷ []
      → Knows cache name index
      → (w' : World fs) × (handle_produce fs cache request w
          ≡ ok (accepted_response request name index, w'))
        × (log_content fs name index w'.files ≡ log_content fs name index w.files ++ records)
  handle_produce-one request preq name index records w parsed shape known =
      let (responses, w', answered, chain) =
        handle_produce-answers reliable cache request preq w parsed in
      let req : ProducePartitionRequest = record { index = index; records = some records } in
      let (p, alone, outcome) = one_response name req responses w w' (rw shape at chain) in
      let (accepted, grown) = accepted_if_known name req p w w' known outcome in
      (w', answered ∙ rw (alone, accepted), grown)

  -- Over a file system without failures and a consistent cache: a Produce of a row of batches to a
  -- partition that the cache has, of a topic that it finds by `id`, and whose log is a row of batches,
  -- is answered without an error; and a Fetch of that partition in the world that the Produce has left
  -- is answered with the batches from the offset asked for on, of those that were there and then those
  -- that were sent. The log may not be there before the Produce, and has fewer than 2 ^ 63 bytes after
  -- it.
  pub handle_fetch_partitions-handle_produce :
      (p f : Request) (preq : ProduceRequest) (freq : FetchRequest) (req : FetchPartitionRequest)
      (topic : TopicRecord) (id : Bytes) (bs cs : List Batch) (w : World fs)
      → IsConsistent cache
      → parse_body deserialize_produce p.body ≡ ok preq
      → preq.topics
        ≡ record {
          name = topic.name;
          partitions = record { index = req.index; records = some (log_of cs) } ∷ [];
        }
          ∷ []
      → parse_body deserialize_fetch f.body ≡ ok freq
      → freq.topics ≡ record { topic_id = id; partitions = req ∷ [] } ∷ []
      → get_topic_by_id id cache ≡ some topic
      → has_partition req.index (get_partitions topic.topic_id cache) ≡ true
      → log_content fs topic.name req.index w.files ≡ log_of bs
      → All IsBatch (bs ++ cs)
      → length (log_of (bs ++ cs)) < 2 ^ 63
      → (w' : World fs) × (handle_produce fs cache p w
          ≡ ok (accepted_response p topic.name req.index, w'))
        × (handle_fetch_partitions fs cache f w'
            ≡ ok (
              records_response f id req.index (log_of (from_offset req.fetch_offset (bs ++ cs))),
              w',
            ))
  handle_fetch_partitions-handle_produce p f preq freq req topic id bs cs w consistent p_parsed
        p_shape f_parsed f_shape found listed held h small =
      let (has_id, named) = get_topic_by_id-found id cache topic consistent found in
      let (w', answered, grown) =
        handle_produce-one p preq topic.name req.index (log_of cs) w p_parsed p_shape
          (topic, named, has_partition→Lists req.index _ listed) in
      (
        w',
        answered,
        handle_fetch_partitions-one fs cache f freq req topic id (bs ++ cs) w' f_parsed f_shape
            found (grown ∙ ap (λ (t : Bytes). t ++ log_of cs) held ∙ sym (log_of-append bs cs)) h
            small,
      )
