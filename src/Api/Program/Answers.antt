-- ===== src/Api/Program/Answers.antt =====
-- What the answer to a request has to be while other threads extend the files.
use codecrafters_kafka_cpp.Common.{
  ℕ, ◌≡◌, ◌⊎◌, List, [], ◌∷◌, ◌++◌, true, false, none, some, Bytes, ok,
}
use codecrafters_kafka_cpp.Metadata.Topic.{TopicRecord}
use codecrafters_kafka_cpp.Metadata.Cache.{MetadataCache, get_topic_by_id}
use codecrafters_kafka_cpp.Storage.FileSystem.{FileSystem}
use codecrafters_kafka_cpp.Storage.LogFiles.{read_log_file}
use codecrafters_kafka_cpp.Storage.LogFiles.Append.{log_content}
use codecrafters_kafka_cpp.Api.Registry.{
  ApiKey, produce, fetch, api_versions, describe_topic_partitions, other,
}
use codecrafters_kafka_cpp.Api.Dto.ApiVersions.{is_supported_version}
use codecrafters_kafka_cpp.Api.Dto.Fetch.{
  FetchPartitionRequest, FetchTopicRequest, FetchPartitionResponse, FetchTopicResponse,
  FetchRequest, deserialize_fetch,
}
use codecrafters_kafka_cpp.Api.Dto.Produce.{
  ProducePartitionRequest, ProduceTopicRequest, ProducePartitionResponse, ProduceTopicResponse,
  ProduceRequest, deserialize_produce,
}
use codecrafters_kafka_cpp.Api.Dto.Request.{Request}
use codecrafters_kafka_cpp.Api.Dto.Response
use codecrafters_kafka_cpp.Api.Dto.Response.{Response}
use codecrafters_kafka_cpp.Api.Controller.{
  parse_body, respond, handle_api_versions, handle_describe_topic_partitions, fetched, produced,
  rejected, extract_from,
}
use codecrafters_kafka_cpp.Api.Controller.Produce.{Knows, Misses, records_of}
use codecrafters_kafka_cpp.Api.Middleware.{rejection}
use codecrafters_kafka_cpp.Api.Router.Extends.{Extends}

module _ (fs : FileSystem) (cache : MetadataCache) where
  -- Steps one after the other, each from files that the one before it has left.
  abbrev pub Follows :
      {A B : Type 0}
      → (A → fs.State → B → fs.State → Type 0)
      → List A
      → fs.State
      → List B
      → fs.State
      → Type 0
  Follows S [] s [] t = Extends fs cache s t
  Follows S [] s (b ∷ bs) t = ⊥
  Follows S (a ∷ as') s [] t = ⊥
  Follows S (a ∷ as') s (b ∷ bs) t = (u : fs.State) × S a s b u × Follows S as' u bs t

  -- The records are those of the log at one moment between `s` and `t`.
  abbrev pub FetchesAmid :
      TopicRecord → FetchPartitionRequest → fs.State → FetchPartitionResponse → fs.State → Type 0
  FetchesAmid topic req s p t =
      (u : fs.State) × (records : Bytes) × Extends fs cache s u
      × Extends fs cache u t
      × (extract_from (read_log_file fs topic.name req.index u) req.fetch_offset ≡ ok records)
      × (p ≡ fetched req.index 0 records)

  abbrev pub FetchesTopicAmid :
      FetchTopicRequest → fs.State → FetchTopicResponse → fs.State → Type 0
  FetchesTopicAmid req s r t =
      (r.topic_id ≡ req.topic_id)
      × (((topic : TopicRecord) × (get_topic_by_id req.topic_id cache ≡ some topic)
            × Follows (FetchesAmid topic) req.partitions s r.partitions t)
          ⊎ ((get_topic_by_id req.topic_id cache ≡ none)
              × (r.partitions ≡ fetched 0 100 [] ∷ [])
              × Extends fs cache s t))

  -- The records stand in the log in one piece; others may have written before and behind them.
  abbrev pub Written : Bytes → ℕ → Bytes → fs.State → fs.State → Type 0
  Written name index records s t =
      (before behind : Bytes) × (log_content fs name index t
        ≡ (log_content fs name index s ++ before) ++ (records ++ behind))

  abbrev pub ProducesAmid :
      Bytes → ProducePartitionRequest → fs.State → ProducePartitionResponse → fs.State → Type 0
  ProducesAmid name req s p t =
      Extends fs cache s t
      × ((Knows cache name req.index
            × (p ≡ produced req.index 0 0 0)
            × Written name req.index (records_of req.records) s t)
          ⊎ (Misses cache name req.index × (p ≡ rejected req.index)))

  abbrev pub ProducesTopicAmid :
      ProduceTopicRequest → fs.State → ProduceTopicResponse → fs.State → Type 0
  ProducesTopicAmid req s r t =
      (r.name ≡ req.name) × Follows (ProducesAmid req.name) req.partitions s r.partitions t

  -- The answer of the controller, by the key of the request, which begins at a moment after `s`.
  abbrev pub Answers : ApiKey → Request → fs.State → Response → fs.State → Type 0
  Answers api_versions request s response t = response ≡ handle_api_versions request
  Answers describe_topic_partitions request s response t =
      handle_describe_topic_partitions cache request ≡ ok response
  Answers fetch request s response t =
      (req : FetchRequest) × (responses : List FetchTopicResponse) × (parse_body deserialize_fetch
          request.body
        ≡ ok req)
      × (response
          ≡ respond request (
              Response.ResponseBody.fetch (record {
                throttle_time_ms = 0;
                error_code = 0;
                session_id = 0;
                responses = responses;
              })))
      × ((u : fs.State) × Extends fs cache s u × Follows FetchesTopicAmid req.topics u responses t)
  Answers produce request s response t =
      (req : ProduceRequest) × (responses : List ProduceTopicResponse) × (parse_body
          deserialize_produce request.body
        ≡ ok req)
      × (response
          ≡ respond request (
              Response.ResponseBody.produce
                (record { responses = responses; throttle_time_ms = 0 })))
      × ((u : fs.State) × Extends fs cache s u × Follows ProducesTopicAmid req.topics u responses t)
  Answers (other raw) request s response t = ⊥

  -- The answer of the router: a refusal, or what the controller answers.
  unfoldable pub Answered : Request → fs.State → Response → fs.State → Type 0
  Answered request s response t =
      ((is_supported_version request.header.api request.header.version ≡ true)
        × Answers request.header.api request s response t)
      ⊎ ((is_supported_version request.header.api request.header.version ≡ false)
          × (rejection request.header.api request.header.correlation_id ≡ ok response))
