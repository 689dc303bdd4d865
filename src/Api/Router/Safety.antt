-- ===== src/Api/Router/Safety.antt =====
-- What holds of every answer that the pipeline of `main` gives, whatever the request's body is.
use codecrafters_kafka_cpp.Common.{
  ℕ, ◌≡◌, ◌≢◌, refl, ◌∙◌, List, Bool-cases, inl, inr, Option-cases, ok, invalid_argument,
}
use codecrafters_kafka_cpp.Common.Returns.{
  Returns, returned, threw, Returns-bind_if, Returns-bind, Returns-elim,
}
use codecrafters_kafka_cpp.Storage.FileSystem.{FileSystem}
use codecrafters_kafka_cpp.Metadata.Cache.{MetadataCache, get_topic_by_id}
use codecrafters_kafka_cpp.Api.Registry.{
  ApiKey, produce, fetch, api_versions, describe_topic_partitions, other,
}
use codecrafters_kafka_cpp.Api.Dto.ApiVersions.{is_supported_version}
use codecrafters_kafka_cpp.Api.Dto.Fetch.{
  FetchPartitionRequest, FetchTopicRequest, deserialize_fetch,
}
use codecrafters_kafka_cpp.Api.Dto.Describe.{deserialize_describe}
use codecrafters_kafka_cpp.Api.Dto.Produce.{deserialize_produce}
use codecrafters_kafka_cpp.Storage.LogFiles.{read_log_file}
use codecrafters_kafka_cpp.Metadata.Topic.{TopicRecord}
use codecrafters_kafka_cpp.Api.Dto.Request.{Request}
use codecrafters_kafka_cpp.Api.Dto.Response.{Response}
use codecrafters_kafka_cpp.Api.Handler.{World, M, for_each, lift}
use codecrafters_kafka_cpp.Api.Controller.{
  handle, dispatch, handle_api_versions, handle_describe_topic_partitions, handle_fetch_partitions,
  handle_produce, fetch_topic, fetch_partitions, fetch_partition, extract_from, parse_body,
  produce_topic,
}
use codecrafters_kafka_cpp.Api.Middleware.{version_validator_middleware, logging_middleware, reject}
use codecrafters_kafka_cpp.Api.Router.Pipeline.{route-main}
use codecrafters_kafka_cpp.Api.Router.Moves.{for_each-Moves, main_router-Moves}
use codecrafters_kafka_cpp.Api.Router.{route, main_router}

-- Equality as a relation between the files before and after.
unmoved : {A : Type 0} (s : A) → s ≡ s
unmoved s = refl

still_unmoved : {A : Type 0} (s t u : A) → t ≡ s → u ≡ t → u ≡ s
still_unmoved s t u e e' = e' ∙ e

module _ {fs : FileSystem} where
  abbrev Echoes : ℕ → Response × World fs → Type 0
  Echoes id (r, w) = r.correlation_id ≡ id

  abbrev pub Keeps : {A : Type 0} → World fs → A × World fs → Type 0
  Keeps w (a, w') = w'.files ≡ w.files

  reject-Echoes : (key : ApiKey) (id : ℕ) (w : World fs) → Returns (Echoes id) (reject key id w)
  unfolding reject
  reject-Echoes api_versions id w = returned _ refl
  reject-Echoes describe_topic_partitions id w = returned _ refl
  reject-Echoes fetch id w = returned _ refl
  reject-Echoes produce id w = threw invalid_argument
  reject-Echoes (other raw) id w = threw invalid_argument

  for_each-Keeps :
      {A B : Type 0} (f : A → M fs B)
      → ((a : A) (w : World fs) → Returns (Keeps w) (f a w))
      → (as' : List A) (w : World fs) → Returns (Keeps w) (for_each f as' w)
  for_each-Keeps = for_each-Moves (λ s t. t ≡ s) unmoved still_unmoved

module _ (fs : FileSystem) (cache : MetadataCache) where
  dispatch-Echoes :
      (key : ApiKey) (request : Request) (w : World fs)
      → Returns (Echoes request.header.correlation_id) (dispatch fs cache key request w)
  unfolding dispatch handle_api_versions handle_describe_topic_partitions handle_fetch_partitions
      handle_produce
  dispatch-Echoes api_versions request w = returned _ refl
  dispatch-Echoes describe_topic_partitions request w =
      Returns-bind_if (λ (r : Response). r.correlation_id ≡ request.header.correlation_id) _
        (handle_describe_topic_partitions cache request) _
        (Returns-bind _ (parse_body deserialize_describe request.body) _ (λ req. returned _ refl))
        (λ r e. returned _ e)
  dispatch-Echoes fetch request w =
      Returns-bind _ (lift (parse_body deserialize_fetch request.body) w) _ (λ (req, v).
        Returns-bind _ (for_each (fetch_topic fs cache) req.topics v) _
          (λ (bs, u). returned _ refl))
  dispatch-Echoes produce request w =
      Returns-bind _ (lift (parse_body deserialize_produce request.body) w) _ (λ (req, v).
        Returns-bind _ (for_each (produce_topic fs cache) req.topics v) _
          (λ (bs, u). returned _ refl))
  dispatch-Echoes (other raw) request w = threw invalid_argument

  fetch_partition-Keeps :
      (t : TopicRecord) (req : FetchPartitionRequest) (w : World fs)
      → Returns (Keeps w) (fetch_partition fs cache t req w)
  unfolding fetch_partition
  fetch_partition-Keeps t req w =
      Returns-bind (Keeps w)
        (extract_from (read_log_file fs t.name req.index w.files) req.fetch_offset) _
        (λ records. returned _ refl)

  fetch_topic-Keeps :
      (t : FetchTopicRequest) (w : World fs) → Returns (Keeps w) (fetch_topic fs cache t w)
  unfolding fetch_topic fetch_partitions
  fetch_topic-Keeps t w = elim (Option-cases (get_topic_by_id t.topic_id cache)) [
    | inl missing ↦ rw missing (returned _ refl)
    | inr (known, found) ↦ rw found (
        Returns-bind_if (Keeps w) (Keeps w)
          (for_each (fetch_partition fs cache known) t.partitions w) _
          (for_each-Keeps (fetch_partition fs cache known) (fetch_partition-Keeps known)
            t.partitions w)
          (λ (ps, v) e. returned _ e))
  ]

  pub dispatch-Keeps :
      (key : ApiKey) (request : Request) (w : World fs)
      → key ≢ produce
      → Returns (Keeps w) (dispatch fs cache key request w)
  unfolding dispatch handle_fetch_partitions
  dispatch-Keeps api_versions request w h = returned _ refl
  dispatch-Keeps describe_topic_partitions request w h =
      Returns-bind (Keeps w) (handle_describe_topic_partitions cache request) _
        (λ r. returned _ refl)
  dispatch-Keeps fetch request w h =
      Returns-bind_if (Keeps w) (Keeps w) (lift (parse_body deserialize_fetch request.body) w) _
        (Returns-bind (Keeps w) (parse_body deserialize_fetch request.body) _
          (λ req. returned _ refl))
        (λ (req, v) e.
          Returns-bind_if (Keeps v) (Keeps w) (for_each (fetch_topic fs cache) req.topics v) _
            (for_each-Keeps (fetch_topic fs cache) fetch_topic-Keeps req.topics v)
            (λ (bs, u) e'. returned _ (e' ∙ e)))
  dispatch-Keeps produce request w h = absurd (h refl)
  dispatch-Keeps (other raw) request w h = threw invalid_argument

  logging-Echoes :
      (request : Request) (w : World fs)
      → Returns
          (Echoes request.header.correlation_id)
          (logging_middleware request (handle fs cache) w)
  unfolding logging_middleware handle
  logging-Echoes request w =
      Returns-bind_if (Echoes request.header.correlation_id) _
        (dispatch fs cache request.header.api request _) _
        (dispatch-Echoes request.header.api request _) (λ (response, after) e. returned _ e)

  -- Whatever the body of a request is, an answer that the broker gives to it carries the correlation
  -- identifier of the request, be the version supported or not.
  pub main_router_echoes :
      (request : Request) (response : Response) (w w' : World fs)
      → route (main_router fs cache) request w ≡ ok (response, w')
      → response.correlation_id ≡ request.header.correlation_id
  unfolding version_validator_middleware
  main_router_echoes request response w w' e =
      Returns-elim (Echoes request.header.correlation_id) _ (response, w')
        (rw (route-main fs cache request w)
          (elim (Bool-cases (is_supported_version request.header.api request.header.version)) [
            | inl supported ↦ rw supported (logging-Echoes request w)
            | inr unsupported ↦
                rw unsupported (reject-Echoes request.header.api request.header.correlation_id _)
          ]))
        e

  -- Only Produce writes: whatever the body of a request of any other key is, an answer that the broker
  -- gives to it leaves the files as they were.
  pub main_router_read_only :
      (request : Request) (response : Response) (w w' : World fs)
      → request.header.api ≢ produce
      → route (main_router fs cache) request w ≡ ok (response, w')
      → w'.files ≡ w.files
  main_router_read_only request response w w' h e =
      Returns-elim (Keeps w) _ (response, w')
        (main_router-Moves (λ s t. t ≡ s) unmoved still_unmoved cache request
          (λ v. dispatch-Keeps request.header.api request v h) w)
        e
