-- ===== src/Api/Controller.antt =====
-- src/api/controller.cpp: the four handlers, over the metadata cache and the log files.
pub mod Describe
pub mod Ends
pub mod Fetch
pub mod Produce
pub mod Visible
pub mod Unwritten
use codecrafters_kafka_cpp.Common.{
  ℕ, ◌-◌, ◌^◌, List, [], ◌∷◌, ◌++◌, map, Bool, true, false, ◌||◌, ◌&&◌, not, Option, none, some,
  Bytes, ◌==◌, ltb, if◌then◌else◌, Outcome, ok, throws, invalid_argument, bind,
}
use codecrafters_kafka_cpp.Core.Reader.{Reader}
use codecrafters_kafka_cpp.Metadata.Topic.{TopicRecord, PartitionRecord}
use codecrafters_kafka_cpp.Metadata.Cache.{
  MetadataCache, get_topic_by_name, get_topic_by_id, get_partitions,
}
use codecrafters_kafka_cpp.Storage.FileSystem.{FileSystem}
use codecrafters_kafka_cpp.Storage.LogFiles.{read_log_file, append_to_log}
use codecrafters_kafka_cpp.Storage.LogParser.{extract_records_from_offset}
use codecrafters_kafka_cpp.Api.Registry.{
  ApiKey, produce, fetch, api_versions, describe_topic_partitions, other,
}
use codecrafters_kafka_cpp.Api.Dto.ApiVersions.{
  ApiDetails, ApiVersionsResponse, get_all_api_details,
}
use codecrafters_kafka_cpp.Api.Dto.Describe.{
  DescribeTopicRequest, DescribeTopicPartitionResponse, DescribeTopicResponse, DescribeResponse,
  deserialize_describe,
}
use codecrafters_kafka_cpp.Api.Dto.Fetch.{
  FetchPartitionRequest, FetchTopicRequest, FetchPartitionResponse, FetchTopicResponse,
  FetchResponse, deserialize_fetch,
}
use codecrafters_kafka_cpp.Api.Dto.Produce.{
  ProducePartitionRequest, ProduceTopicRequest, ProducePartitionResponse, ProduceTopicResponse,
  ProduceResponse, deserialize_produce,
}
use codecrafters_kafka_cpp.Api.Dto.Request.{Request}
use codecrafters_kafka_cpp.Api.Dto.Response
use codecrafters_kafka_cpp.Api.Dto.Response.{Response, ResponseBody}
use codecrafters_kafka_cpp.Api.Handler.{World, M, HandlerFunc, ◌>>=◌, pure, lift, for_each}

-- A request body read from its first byte on.
unfoldable pub parse_body : {A : Type 0} → Reader A → Bytes → Outcome A
parse_body deserialize body = bind (deserialize body 0) λ (a, _). ok a

abbrev pub respond : Request → ResponseBody → Response
respond request body = record { correlation_id = request.header.correlation_id; body = body }

unfoldable pub handle_api_versions : Request → Response
handle_api_versions request = respond request (
    Response.ResponseBody.api_versions
      (record { error_code = 0; keys = get_all_api_details; throttle_time_ms = 0 }))

unfoldable pub describe_partition : PartitionRecord → DescribeTopicPartitionResponse
describe_partition p = record {
  error_code = 0;
  partition_index = p.partition_id;
  leader_id = p.leader;
  leader_epoch = p.leader_epoch;
  replica_nodes = p.replicas;
  isr_nodes = p.isr;
  eligible_leader_replicas = [];
  last_known_elr = [];
  offline_replicas = [];
}

abbrev pub zero_id : Bytes
zero_id = 0 ∷ 0 ∷ 0 ∷ 0 ∷ 0 ∷ 0 ∷ 0 ∷ 0 ∷ 0 ∷ 0 ∷ 0 ∷ 0 ∷ 0 ∷ 0 ∷ 0 ∷ 0 ∷ []

unfoldable pub describe_found : MetadataCache → Bytes → Option TopicRecord → DescribeTopicResponse
describe_found cache name none = record {
  error_code = 3;
  name = name;
  topic_id = zero_id;
  is_internal = false;
  partitions = [];
  topic_authorized_operations = 0;
}
describe_found cache name (some topic) = record {
  error_code = 0;
  name = name;
  topic_id = topic.topic_id;
  is_internal = false;
  partitions = map describe_partition (get_partitions topic.topic_id cache);
  topic_authorized_operations = 0;
}

-- One round of the loop over the requested topics.
unfoldable pub describe_topic : MetadataCache → DescribeTopicRequest → DescribeTopicResponse
describe_topic cache req_topic =
    describe_found cache req_topic.name (get_topic_by_name req_topic.name cache)

-- `a < b` on `std::string`: bytes compared as unsigned.
unfoldable pub bytes_lt : Bytes → Bytes → Bool
bytes_lt [] [] = false
bytes_lt [] (y ∷ ys) = true
bytes_lt (x ∷ xs) [] = false
bytes_lt (x ∷ xs) (y ∷ ys) = ltb x y || (x == y && bytes_lt xs ys)

-- `std::ranges::sort` by name. The order that it gives topics of one name is left open; these are
-- answers to the same question, and equal.
unfoldable pub insert_by_name :
    DescribeTopicResponse → List DescribeTopicResponse → List DescribeTopicResponse
insert_by_name t [] = t ∷ []
insert_by_name t (u ∷ us) = if bytes_lt u.name t.name then u ∷ insert_by_name t us else t ∷ u ∷ us

unfoldable pub sort_by_name : List DescribeTopicResponse → List DescribeTopicResponse
sort_by_name [] = []
sort_by_name (t ∷ ts) = insert_by_name t (sort_by_name ts)

unfoldable pub handle_describe_topic_partitions : MetadataCache → Request → Outcome Response
handle_describe_topic_partitions cache request =
    bind (parse_body deserialize_describe request.body) λ req_body. ok (
      respond request (
        Response.ResponseBody.describe (record {
          throttle_time_ms = 0;
          topics = sort_by_name (map (describe_topic cache) req_body.topics);
          next_cursor = 2 ^ 8 - 1;
        })))

-- A partition response of `handle_fetch_partitions`; the read replica keeps its default, -1.
abbrev pub fetched : ℕ → ℕ → Bytes → FetchPartitionResponse
fetched partition_index error_code records = record {
  partition_index = partition_index;
  error_code = error_code;
  high_watermark = 0;
  last_stable_offset = 0;
  log_start_offset = 0;
  aborted_transactions = [];
  preferred_read_replica = 2 ^ 32 - 1;
  records = records;
}

-- A partition response of `handle_produce`, with its error code and offsets.
abbrev pub produced : ℕ → ℕ → ℕ → ℕ → ProducePartitionResponse
produced index error_code base_offset log_start_offset = record {
  index = index;
  error_code = error_code;
  base_offset = base_offset;
  log_append_time_ms = 2 ^ 64 - 1;
  log_start_offset = log_start_offset;
  record_errors = [];
  error_message = none;
}

abbrev pub rejected : ℕ → ProducePartitionResponse
rejected index = produced index 3 (2 ^ 64 - 1) (2 ^ 64 - 1)

unfoldable pub has_partition : ℕ → List PartitionRecord → Bool
has_partition index [] = false
has_partition index (p ∷ ps) = p.partition_id == index || has_partition index ps

-- The records of a partition, none if its log cannot be read.
unfoldable pub extract_from : Option Bytes → ℕ → Outcome Bytes
extract_from none fetch_offset = ok []
extract_from (some log_bytes) fetch_offset = extract_records_from_offset log_bytes fetch_offset

module _ (fs : FileSystem) (cache : MetadataCache) where
  unfoldable pub fetch_partition : TopicRecord → FetchPartitionRequest → M fs FetchPartitionResponse
  fetch_partition topic req w =
      bind (extract_from (read_log_file fs topic.name req.index w.files) req.fetch_offset)
        λ records. ok (fetched req.index 0 records, w)

  unfoldable pub fetch_partitions :
      Option TopicRecord → List FetchPartitionRequest → M fs (List FetchPartitionResponse)
  fetch_partitions none reqs = pure (fetched 0 100 [] ∷ [])
  fetch_partitions (some topic) reqs = for_each (fetch_partition topic) reqs

  unfoldable pub fetch_topic : FetchTopicRequest → M fs FetchTopicResponse
  fetch_topic req_topic = do
    partitions ← fetch_partitions (get_topic_by_id req_topic.topic_id cache) req_topic.partitions
    pure (record { topic_id = req_topic.topic_id; partitions = partitions })

  unfoldable pub handle_fetch_partitions : HandlerFunc fs
  handle_fetch_partitions request = do
    fetch_req ← lift (parse_body deserialize_fetch request.body)
    responses ← for_each fetch_topic fetch_req.topics
    pure (
        respond request (
          Response.ResponseBody.fetch (record {
            throttle_time_ms = 0;
            error_code = 0;
            session_id = 0;
            responses = responses;
          })))

  -- The records, if there are any, go to the log; what the append reports is not looked at.
  unfoldable pub append_records : Bytes → ℕ → Option Bytes → M fs (Unit {0})
  append_records name index none w = ok (tt, w)
  append_records name index (some records) w =
      bind (append_to_log fs name index records w.files)
        λ (_, files). ok (tt, record w { files = files })

  unfoldable pub produce_partition :
      Bytes → Option TopicRecord → ProducePartitionRequest → M fs ProducePartitionResponse
  produce_partition name none req = pure (rejected req.index)
  produce_partition name (some topic) req =
      let success : M fs ProducePartitionResponse = do
        _ ← append_records name req.index req.records
        pure (produced req.index 0 0 0)
      in if has_partition req.index (get_partitions topic.topic_id cache)
        then success
        else pure (rejected req.index)

  unfoldable pub produce_topic : ProduceTopicRequest → M fs ProduceTopicResponse
  produce_topic req_topic = do
    partitions ←
        for_each (produce_partition req_topic.name (get_topic_by_name req_topic.name cache))
          req_topic.partitions
    pure (record { name = req_topic.name; partitions = partitions })

  unfoldable pub handle_produce : HandlerFunc fs
  handle_produce request = do
    produce_req ← lift (parse_body deserialize_produce request.body)
    responses ← for_each produce_topic produce_req.topics
    pure (
        respond request
          (Response.ResponseBody.produce (record { responses = responses; throttle_time_ms = 0 })))

  unfoldable pub dispatch : ApiKey → HandlerFunc fs
  dispatch api_versions request = pure (handle_api_versions request)
  dispatch describe_topic_partitions request = lift (handle_describe_topic_partitions cache request)
  dispatch fetch request = handle_fetch_partitions request
  dispatch produce request = handle_produce request
  dispatch (other raw) request = λ w. throws invalid_argument

  -- `KafkaController::handle`
  unfoldable pub handle : HandlerFunc fs
  handle request = dispatch request.header.api request
