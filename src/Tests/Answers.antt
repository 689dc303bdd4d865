-- ===== src/Tests/Answers.antt =====
-- What the handlers answer, and a response as a frame.
use mathlib.Core.List.{Perm}
use codecrafters_kafka_cpp.Common.{
  ◌-◌, ◌^◌, ◌≡◌, refl, sym, ◌∙◌, ℕ, List, [], ◌∷◌, append-nil, inl, length, Pairs, some, Bytes,
  be_bytes, le_bytes, ok, arith,
}
use codecrafters_kafka_cpp.Core.Wire.{
  varint_bytes, groups, array_bytes, items_bytes, string_bytes, nullable_bytes,
}
use codecrafters_kafka_cpp.Storage.LogFiles.{read_log_file}
use codecrafters_kafka_cpp.Storage.LogParser.Batches.{Batch, IsBatch, batch_bytes, log_of}
use codecrafters_kafka_cpp.Api.Registry.{describe_topic_partitions, fetch, produce, ApiKey}
use codecrafters_kafka_cpp.Api.Dto.Describe.{DescribeTopicResponse, deserialize_describe}
use codecrafters_kafka_cpp.Api.Dto.Describe.Decode.{describe_bytes}
use codecrafters_kafka_cpp.Api.Dto.Fetch.{FetchTopicResponse, deserialize_fetch}
use codecrafters_kafka_cpp.Api.Dto.Fetch.Decode.{
  fetch_bytes, fetch_topic_bytes, fetch_partition_bytes, Decodes-fetch,
}
use codecrafters_kafka_cpp.Api.Dto.Produce.{ProduceTopicResponse, deserialize_produce}
use codecrafters_kafka_cpp.Api.Dto.Produce.Decode.{
  produce_bytes, produce_topic_bytes, produce_partition_bytes, Decodes-produce,
}
use codecrafters_kafka_cpp.Core.Wire.{tag_buffer_bytes}
use codecrafters_kafka_cpp.Api.Dto.Request.{Request}
use codecrafters_kafka_cpp.Api.Dto.Response
use codecrafters_kafka_cpp.Api.Dto.Response.{Response, serialize_response}
use codecrafters_kafka_cpp.Api.Dto.Response.Frame.{
  body_bytes, payload_bytes, frame_bytes, FitsBody, serialize_response-frame,
}
use codecrafters_kafka_cpp.Api.Dto.Produce.Encode.{
  produce_response_bytes, produce_topic_response_bytes, produce_partition_response_bytes,
}
use codecrafters_kafka_cpp.Api.Handler.{World}
use codecrafters_kafka_cpp.Api.Controller.{
  handle_describe_topic_partitions, handle_fetch_partitions, handle_produce, produced, parse_body,
}
use codecrafters_kafka_cpp.Api.Router.Answers.{parse_body-layout, parse_body-describe_bytes}
use codecrafters_kafka_cpp.Api.Controller.Describe.{
  Describes, IsSorted, handle_describe_topic_partitions-answers,
}
use codecrafters_kafka_cpp.Api.Controller.Fetch.{
  IsLog, LogsAreWhole, FetchesTopic, handle_fetch_partitions-answers,
}
use codecrafters_kafka_cpp.Api.Controller.Produce.{Chain, ProducesTopic, handle_produce-answers}
use codecrafters_kafka_cpp.Tests.Data.{memory, memory-IsReliable, no_files, foo_cache, foo}
use codecrafters_kafka_cpp.Tests.Requests.{
  describe_foo, describe_foo-FitsDescribe, describe_foo_size, foo_page, fetch_foo,
  fetch_foo-FitsFetch, produce_foo, produce_foo-FitsProduce,
}

abbrev pub request_for : ApiKey → Bytes → Request
request_for key body = record {
  message_size = 0;
  header = record { api = key; version = 0; correlation_id = 7 };
  body = body;
}

describe_foo_body :
    parse_body deserialize_describe (describe_bytes describe_foo foo_page) ≡ ok describe_foo
describe_foo_body =
    parse_body-describe_bytes describe_foo foo_page describe_foo-FitsDescribe
      (rw describe_foo_size (omega arith))

handle_describe_topic_partitions-answers_example :
    (topics answers : List DescribeTopicResponse) × (handle_describe_topic_partitions foo_cache
        (request_for describe_topic_partitions (describe_bytes describe_foo foo_page))
      ≡ ok (record {
        correlation_id = 7;
        body =
            Response.ResponseBody.describe
              (record { throttle_time_ms = 0; topics = topics; next_cursor = 2 ^ 8 - 1 });
      }))
    × Pairs (Describes foo_cache) describe_foo.topics answers
    × Perm topics answers
    × IsSorted topics
handle_describe_topic_partitions-answers_example =
    handle_describe_topic_partitions-answers foo_cache
      (request_for describe_topic_partitions (describe_bytes describe_foo foo_page)) describe_foo
      describe_foo_body

-- Every log of this file system is one batch.
abbrev pub only_batch : Batch
only_batch = record { base_offset = 3; payload = 8 ∷ 9 ∷ [] }

only_batch-IsBatch : IsBatch only_batch
only_batch-IsBatch = record { base_offset = omega arith; payload = omega arith }

abbrev pub full_disk : World memory
full_disk = record { files = λ path. some (some (log_of (only_batch ∷ []))); console = [] }

only_batch-IsLog : IsLog (log_of (only_batch ∷ [])) (only_batch ∷ [])
unfolding log_of batch_bytes be_bytes le_bytes
only_batch-IsLog =
    ([], (only_batch-IsBatch, tt), inl (omega arith), omega arith, sym (append-nil _))

full_disk_reads :
    (name : Bytes) (index : ℕ)
    → read_log_file memory name index full_disk.files ≡ some (log_of (only_batch ∷ []))
unfolding read_log_file
full_disk_reads name index = refl

pub full_disk-LogsAreWhole : LogsAreWhole memory foo_cache full_disk
unfolding log_of batch_bytes be_bytes
full_disk-LogsAreWhole name index log read =
    let both : some (log_of (only_batch ∷ [])) ≡ some log =
      sym (full_disk_reads name index) ∙ read in
    let same : log_of (only_batch ∷ []) ≡ log = cc in (only_batch ∷ [], rw same at only_batch-IsLog)

pub fetch_foo_size : length (fetch_bytes fetch_foo) ≡ 73
unfolding fetch_bytes fetch_topic_bytes fetch_partition_bytes array_bytes items_bytes varint_bytes
    groups be_bytes le_bytes
fetch_foo_size = refl

handle_fetch_partitions-answers_example :
    (responses : List FetchTopicResponse) × (handle_fetch_partitions memory foo_cache
        (request_for fetch (fetch_bytes fetch_foo))
        full_disk
      ≡ ok (
        record {
          correlation_id = 7;
          body = Response.ResponseBody.fetch (record {
            throttle_time_ms = 0;
            error_code = 0;
            session_id = 0;
            responses = responses;
          });
        },
        full_disk,
      ))
    × Pairs (FetchesTopic memory foo_cache full_disk) fetch_foo.topics responses
handle_fetch_partitions-answers_example =
    handle_fetch_partitions-answers memory foo_cache full_disk
      (request_for fetch (fetch_bytes fetch_foo)) fetch_foo
      (parse_body-layout deserialize_fetch (Decodes-fetch fetch_foo fetch_foo-FitsFetch)
        (rw fetch_foo_size (omega arith)))
      full_disk-LogsAreWhole

produce_foo_size : length (produce_bytes [] produce_foo) ≡ 30
unfolding produce_bytes produce_topic_bytes produce_partition_bytes array_bytes items_bytes
    varint_bytes groups be_bytes le_bytes tag_buffer_bytes string_bytes nullable_bytes
produce_foo_size = refl

abbrev pub empty_disk : World memory
empty_disk = record { files = no_files; console = [] }

handle_produce-answers_example :
    (responses : List ProduceTopicResponse) × (w' : World memory) × (handle_produce memory foo_cache
        (request_for produce (produce_bytes [] produce_foo))
        empty_disk
      ≡ ok (
        record {
          correlation_id = 7;
          body =
              Response.ResponseBody.produce
                (record { responses = responses; throttle_time_ms = 0 });
        },
        w',
      ))
    × Chain (ProducesTopic foo_cache) produce_foo.topics empty_disk responses w'
handle_produce-answers_example =
    handle_produce-answers memory-IsReliable foo_cache
      (request_for produce (produce_bytes [] produce_foo)) produce_foo empty_disk
      (parse_body-layout deserialize_produce
        (Decodes-produce [] (omega arith) tt produce_foo produce_foo-FitsProduce)
        (rw produce_foo_size (omega arith)))

-- The response to a record for a partition.
abbrev produced_foo : Response
produced_foo = record {
  correlation_id = 7;
  body = Response.ResponseBody.produce (record {
    responses = record { name = foo; partitions = produced 0 0 0 0 ∷ [] } ∷ [];
    throttle_time_ms = 0;
  });
}

produced_foo-FitsBody : FitsBody produced_foo.body
produced_foo-FitsBody = record {
  count = omega arith;
  responses = (
    record {
      name = omega arith;
      count = omega arith;
      partitions = (record { count = omega arith; messages = tt; error_message = tt }, tt);
    },
    tt,
  );
}

produced_foo_size : length (payload_bytes produced_foo) ≡ 50
unfolding payload_bytes body_bytes produce_response_bytes produce_topic_response_bytes
    produce_partition_response_bytes array_bytes items_bytes varint_bytes groups be_bytes le_bytes
    string_bytes nullable_bytes
produced_foo_size = refl

serialize_response-frame_example :
    serialize_response produced_foo (1 ∷ []) ≡ 1 ∷ frame_bytes produced_foo
serialize_response-frame_example =
    serialize_response-frame produced_foo (1 ∷ []) produced_foo-FitsBody
      (rw produced_foo_size (omega arith))
