-- ===== src/Api/Program/Controller.antt =====
-- src/api/controller.cpp, src/storage/disk_reader.cpp and log_writer.cpp, cut at what they ask of the
-- file system.
use codecrafters_kafka_cpp.Common.{
  ℕ, List, [], ◌∷◌, Bool, true, false, Option, none, some, Bytes, if◌then◌else◌, throws,
  invalid_argument,
}
use codecrafters_kafka_cpp.Metadata.Topic.{TopicRecord}
use codecrafters_kafka_cpp.Metadata.Cache.{
  MetadataCache, get_topic_by_name, get_topic_by_id, get_partitions,
}
use codecrafters_kafka_cpp.Storage.LogFiles.{dir_path, file_path, buffer_of}
use codecrafters_kafka_cpp.Api.Registry.{
  ApiKey, produce, fetch, api_versions, describe_topic_partitions, other,
}
use codecrafters_kafka_cpp.Api.Dto.Fetch.{
  FetchPartitionRequest, FetchTopicRequest, FetchPartitionResponse, FetchTopicResponse,
  deserialize_fetch,
}
use codecrafters_kafka_cpp.Api.Dto.Produce.{
  ProducePartitionRequest, ProduceTopicRequest, ProducePartitionResponse, ProduceTopicResponse,
  deserialize_produce,
}
use codecrafters_kafka_cpp.Api.Dto.Request.{Request}
use codecrafters_kafka_cpp.Api.Dto.Response
use codecrafters_kafka_cpp.Api.Dto.Response.{Response}
use codecrafters_kafka_cpp.Api.Controller.{
  parse_body, respond, handle_api_versions, handle_describe_topic_partitions, fetched, produced,
  rejected, has_partition, extract_from,
}
use codecrafters_kafka_cpp.Api.Program.{
  Program, returns, reads, makes, appends, ◌>>=◌, pure, for_each,
}

unfoldable pub read_log_file : Bytes → ℕ → Program (Option Bytes)
read_log_file topic_name partition_index =
    reads (file_path topic_name partition_index) λ content. pure (buffer_of content)

-- Whether the file could be opened, and was good after the write.
abbrev pub went_well : Option Bool → Bool
went_well none = false
went_well (some good) = good

unfoldable pub append_to_log : Bytes → ℕ → Bytes → Program Bool
append_to_log topic_name partition_index [] = pure true
append_to_log topic_name partition_index (b ∷ bs) =
    makes (dir_path topic_name partition_index)
      (appends (file_path topic_name partition_index) (b ∷ bs) λ good. pure (went_well good))

unfoldable pub fetch_partition :
    TopicRecord → FetchPartitionRequest → Program FetchPartitionResponse
unfolding read_log_file ◌>>=◌
fetch_partition topic req = do
  log_bytes ← read_log_file topic.name req.index
  records ← returns (extract_from log_bytes req.fetch_offset)
  pure (fetched req.index 0 records)

unfoldable pub append_records : Bytes → ℕ → Option Bytes → Program (Unit {0})
unfolding append_to_log ◌>>=◌
append_records name index none = pure tt
append_records name index (some records) = do _ ← append_to_log name index records; pure tt

unfoldable pub produce_partition :
    MetadataCache
    → Bytes
    → Option TopicRecord
    → ProducePartitionRequest
    → Program ProducePartitionResponse
unfolding append_records ◌>>=◌
produce_partition cache name none req = pure (rejected req.index)
produce_partition cache name (some topic) req =
    let success : Program ProducePartitionResponse = do
      _ ← append_records name req.index req.records
      pure (produced req.index 0 0 0)
    in if has_partition req.index (get_partitions topic.topic_id cache)
      then success
      else pure (rejected req.index)

module _ (cache : MetadataCache) where
  unfoldable pub fetch_partitions :
      Option TopicRecord → List FetchPartitionRequest → Program (List FetchPartitionResponse)
  unfolding fetch_partition for_each
  fetch_partitions none reqs = pure (fetched 0 100 [] ∷ [])
  fetch_partitions (some topic) reqs = for_each (fetch_partition topic) reqs

  unfoldable pub fetch_topic : FetchTopicRequest → Program FetchTopicResponse
  unfolding fetch_partitions ◌>>=◌
  fetch_topic req_topic = do
    partitions ← fetch_partitions (get_topic_by_id req_topic.topic_id cache) req_topic.partitions
    pure (record { topic_id = req_topic.topic_id; partitions = partitions })

  unfoldable pub handle_fetch_partitions : Request → Program Response
  unfolding fetch_topic for_each ◌>>=◌
  handle_fetch_partitions request = do
    fetch_req ← returns (parse_body deserialize_fetch request.body)
    responses ← for_each fetch_topic fetch_req.topics
    pure (
        respond request (
          Response.ResponseBody.fetch (record {
            throttle_time_ms = 0;
            error_code = 0;
            session_id = 0;
            responses = responses;
          })))

  unfoldable pub produce_topic : ProduceTopicRequest → Program ProduceTopicResponse
  unfolding produce_partition for_each ◌>>=◌
  produce_topic req_topic = do
    partitions ←
        for_each (produce_partition cache req_topic.name (get_topic_by_name req_topic.name cache))
          req_topic.partitions
    pure (record { name = req_topic.name; partitions = partitions })

  unfoldable pub handle_produce : Request → Program Response
  unfolding produce_topic for_each ◌>>=◌
  handle_produce request = do
    produce_req ← returns (parse_body deserialize_produce request.body)
    responses ← for_each produce_topic produce_req.topics
    pure (
        respond request
          (Response.ResponseBody.produce (record { responses = responses; throttle_time_ms = 0 })))

  unfoldable pub dispatch : ApiKey → Request → Program Response
  unfolding handle_fetch_partitions handle_produce
  dispatch api_versions request = pure (handle_api_versions request)
  dispatch describe_topic_partitions request =
      returns (handle_describe_topic_partitions cache request)
  dispatch fetch request = handle_fetch_partitions request
  dispatch produce request = handle_produce request
  dispatch (other raw) request = returns (throws invalid_argument)
