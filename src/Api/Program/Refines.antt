-- ===== src/Api/Program/Refines.antt =====
-- The programs do what the handlers do, when nothing comes between.
use codecrafters_kafka_cpp.Common.{
  ℕ, [], ◌∷◌, ◌≡◌, refl, sym, ◌∙◌, Bool-cases, inl, inr, Option, Option-cases, none, some, Bytes,
  Outcome, ok, bind, List,
}
use codecrafters_kafka_cpp.Metadata.Topic.{TopicRecord}
use codecrafters_kafka_cpp.Metadata.Cache.{
  MetadataCache, get_topic_by_name, get_topic_by_id, get_partitions,
}
use codecrafters_kafka_cpp.Storage.FileSystem.{FileSystem}
use codecrafters_kafka_cpp.Storage.LogFiles as Files
use codecrafters_kafka_cpp.Storage.LogFiles.{file_path, dir_path}
use codecrafters_kafka_cpp.Api.Registry.{
  ApiKey, produce, fetch, api_versions, describe_topic_partitions, other,
}
use codecrafters_kafka_cpp.Api.Dto.Fetch.{FetchPartitionRequest, FetchTopicRequest}
use codecrafters_kafka_cpp.Api.Dto.Produce.{ProducePartitionRequest, ProduceTopicRequest}
use codecrafters_kafka_cpp.Api.Dto.ApiVersions.{is_supported_version}
use codecrafters_kafka_cpp.Api.Dto.Request.{Request}
use codecrafters_kafka_cpp.Api.Dto.Response.{Response}
use codecrafters_kafka_cpp.Api.Handler.{World, lift}
use codecrafters_kafka_cpp.Api.Controller as Whole
use codecrafters_kafka_cpp.Api.Controller.{has_partition, fetched, rejected, handle}
use codecrafters_kafka_cpp.Api.Middleware as Middleware
use codecrafters_kafka_cpp.Api.Middleware.{reject}
use codecrafters_kafka_cpp.Api.Router.{route, main_router}
use codecrafters_kafka_cpp.Api.Router.Pipeline.{route-main}
use codecrafters_kafka_cpp.Api.Program.{Program, run, returns}
use codecrafters_kafka_cpp.Api.Program.Controller.{
  read_log_file, append_to_log, fetch_partition, fetch_partitions, fetch_topic,
  handle_fetch_partitions, append_records, produce_partition, produce_topic, handle_produce,
  dispatch,
}
use codecrafters_kafka_cpp.Api.Program.Pipeline.{
  version_validator, dump_body, log_response, logging, route_main,
}
use codecrafters_kafka_cpp.Api.Program.Runs.{
  RunsAs, then-RunsAs, pure-RunsAs, for_each-RunsAs, bind-cong, bind_assoc,
}

module _ (fs : FileSystem) (cache : MetadataCache) where
  lift-RunsAs : {A : Type 0} (r : Outcome A) → RunsAs {fs = fs} (returns r) (lift r)
  unfolding run
  lift-RunsAs r w = refl

  append_to_log-run :
      (name : Bytes) (index : ℕ) (records : Bytes)
      → RunsAs {fs = fs} (append_to_log name index records) (λ w.
        bind
          (Files.append_to_log fs name index records w.files)
          λ (good, files). ok (good, record w { files = files }))
  unfolding run append_to_log Files.append_to_log
  append_to_log-run name index [] w = refl
  append_to_log-run name index (b ∷ bs) w =
      bind-cong (fs.create_directories (dir_path name index) w.files) _ _ (λ files.
        elim (Option-cases (fs.append_file (file_path name index) (b ∷ bs) files)) [
          | inl e ↦ rw e refl
          | inr ((good, after), e) ↦ rw e refl
        ])
      ∙ bind_assoc (fs.create_directories (dir_path name index) w.files) _ _

  read_log_file-run :
      (name : Bytes) (index : ℕ)
      → RunsAs {fs = fs}
          (read_log_file name index)
          (λ w. ok (Files.read_log_file fs name index w.files, w))
  unfolding run read_log_file Files.read_log_file
  read_log_file-run name index w = refl

  fetch_partition-run :
      (topic : TopicRecord) (req : FetchPartitionRequest)
      → RunsAs (fetch_partition topic req) (Whole.fetch_partition fs cache topic req)
  unfolding fetch_partition Whole.fetch_partition
  fetch_partition-run topic req w =
      then-RunsAs _ _ _ _ (read_log_file-run topic.name req.index)
        (λ log_bytes.
          then-RunsAs _ _ _ _ (lift-RunsAs (Whole.extract_from log_bytes req.fetch_offset))
            (λ records. pure-RunsAs (fetched req.index 0 records)))
        w
      ∙ sym (
          bind_assoc
            (Whole.extract_from (Files.read_log_file fs topic.name req.index w.files)
              req.fetch_offset)
            (λ records. ok (records, w)) (λ (records, v). ok (fetched req.index 0 records, v)))

  fetch_partitions-run :
      (topic : Option TopicRecord) (reqs : List FetchPartitionRequest)
      → RunsAs (fetch_partitions cache topic reqs) (Whole.fetch_partitions fs cache topic reqs)
  unfolding fetch_partitions Whole.fetch_partitions
  fetch_partitions-run none reqs = pure-RunsAs _
  fetch_partitions-run (some topic) reqs = for_each-RunsAs _ _ (fetch_partition-run topic) reqs

  fetch_topic-run :
      (t : FetchTopicRequest) → RunsAs (fetch_topic cache t) (Whole.fetch_topic fs cache t)
  unfolding fetch_topic Whole.fetch_topic
  fetch_topic-run t =
      then-RunsAs _ _ _ _ (fetch_partitions-run (get_topic_by_id t.topic_id cache) t.partitions)
        (λ ps. pure-RunsAs _)

  handle_fetch_partitions-run :
      (request : Request)
      → RunsAs
          (handle_fetch_partitions cache request)
          (Whole.handle_fetch_partitions fs cache request)
  unfolding handle_fetch_partitions Whole.handle_fetch_partitions
  handle_fetch_partitions-run request = then-RunsAs _ _ _ _ (lift-RunsAs _) (λ req.
      then-RunsAs _ _ _ _ (for_each-RunsAs _ _ fetch_topic-run req.topics) (λ rs. pure-RunsAs _))

  append_records-run :
      (name : Bytes) (index : ℕ) (records : Option Bytes)
      → RunsAs
          (append_records name index records)
          (Whole.append_records fs cache name index records)
  unfolding append_records Whole.append_records
  append_records-run name index none w = pure-RunsAs tt w
  append_records-run name index (some records) w =
      then-RunsAs _ _ _ _ (append_to_log-run name index records) (λ good. pure-RunsAs tt) w
      ∙ sym (bind_assoc (Files.append_to_log fs name index records w.files) _ _)

  produce_partition-run :
      (name : Bytes) (topic : Option TopicRecord) (req : ProducePartitionRequest)
      → RunsAs
          (produce_partition cache name topic req)
          (Whole.produce_partition fs cache name topic req)
  unfolding produce_partition Whole.produce_partition
  produce_partition-run name none req w = pure-RunsAs _ w
  produce_partition-run name (some topic) req w =
      elim (Bool-cases (has_partition req.index (get_partitions topic.topic_id cache))) [
        | inl listed ↦ rw listed (
            then-RunsAs _ _ _ _ (append_records-run name req.index req.records) (λ u. pure-RunsAs _)
              w)
        | inr unlisted ↦ rw unlisted (pure-RunsAs (rejected req.index) w)
      ]

  produce_topic-run :
      (t : ProduceTopicRequest) → RunsAs (produce_topic cache t) (Whole.produce_topic fs cache t)
  unfolding produce_topic Whole.produce_topic
  produce_topic-run t =
      then-RunsAs _ _ _ _
        (for_each-RunsAs _ _ (produce_partition-run t.name (get_topic_by_name t.name cache))
          t.partitions)
        (λ ps. pure-RunsAs _)

  handle_produce-run :
      (request : Request)
      → RunsAs (handle_produce cache request) (Whole.handle_produce fs cache request)
  unfolding handle_produce Whole.handle_produce
  handle_produce-run request = then-RunsAs _ _ _ _ (lift-RunsAs _) (λ req.
      then-RunsAs _ _ _ _ (for_each-RunsAs _ _ produce_topic-run req.topics) (λ rs. pure-RunsAs _))

  dispatch-run :
      (key : ApiKey) (request : Request)
      → RunsAs (dispatch cache key request) (Whole.dispatch fs cache key request)
  unfolding dispatch Whole.dispatch
  dispatch-run api_versions request = pure-RunsAs _
  dispatch-run describe_topic_partitions request = lift-RunsAs _
  dispatch-run fetch request = handle_fetch_partitions-run request
  dispatch-run produce request = handle_produce-run request
  dispatch-run (other raw) request = lift-RunsAs _

  dump_body-run :
      (body : Bytes) (p : Program Response) (w : World fs)
      → run fs (dump_body body p) w ≡ run fs p (Middleware.dump_body body w)
  unfolding dump_body Middleware.dump_body run
  dump_body-run [] p w = refl
  dump_body-run (b ∷ bs) p w = refl

  logging-run :
      (request : Request)
      → RunsAs
          (logging request (λ r. dispatch cache r.header.api r))
          (Middleware.logging_middleware request (handle fs cache))
  unfolding logging log_response Middleware.logging_middleware run handle
  logging-run request w =
      dump_body-run request.body _ _
      ∙ then-RunsAs (dispatch cache request.header.api request)
          (log_response (Middleware.get_api_name request.header.api)) _ _
          (dispatch-run request.header.api request) (λ response v. refl) _

  -- When no other thread comes between its operations, the handling of a request does what the router
  -- of `main` does: the same response, files and console, or the same failure.
  pub route_main-run :
      (request : Request) (w : World fs)
      → run fs (route_main cache request) w ≡ route (main_router fs cache) request w
  unfolding route_main version_validator Middleware.version_validator_middleware reject
  route_main-run request w =
      elim (Bool-cases (is_supported_version request.header.api request.header.version)) [
        | inl supported ↦ rw (route-main fs cache request w, supported) (logging-run request w)
        | inr unsupported ↦ rw (route-main fs cache request w, unsupported) (unfold run in refl)
      ]
