-- ===== src/Tests/Brokers.antt =====
-- A broker with one client.
use codecrafters_kafka_cpp.Common.{
  from_le, byteswap, Bytes, ◌≡◌, refl, [], ◌∷◌, ◌++◌, some, none, bytes_eq, if◌then◌else◌, be_bytes,
  le_bytes, IsByte, All, length, ok, arith,
}
use codecrafters_kafka_cpp.Core.Wire.{varint_bytes, groups, string_bytes, array_bytes, items_bytes}
use codecrafters_kafka_cpp.Metadata.Topic.Decode.{topic_bytes, partition_bytes}
use codecrafters_kafka_cpp.Metadata.Cache.{empty_cache, num_of_topics}
use codecrafters_kafka_cpp.Metadata.Parser.Records.{record_bytes, content_bytes, value_bytes}
use codecrafters_kafka_cpp.Metadata.Parser.Batches.{record_batch_bytes, metadata_log, add_batches}
use codecrafters_kafka_cpp.Api.ClientSession.{session_round, read_size, read_body, answer}
use codecrafters_kafka_cpp.Api.Dto.Request.{deserialize_request, deserialize_header, read_rest}
use codecrafters_kafka_cpp.Api.Dto.Request.Decode.{header_bytes}
use codecrafters_kafka_cpp.Core.Reader.{read_be, read_span, read_unsigned_varint, varint_loop, skip}
use codecrafters_kafka_cpp.Api.Registry.{to_api_key, get_request_header_version, to_underlying}
use codecrafters_kafka_cpp.Api.Controller.{parse_body, handle, dispatch, handle_api_versions}
use codecrafters_kafka_cpp.Api.Middleware.{
  version_validator_middleware, logging_middleware, dump_body,
}
use codecrafters_kafka_cpp.Api.Handler.{topics, dumped, print, waiting, connected}
use codecrafters_kafka_cpp.Api.Dto.ApiVersions.{
  is_supported_version, get_api_details, find_api, supported_apis, in_range, get_all_api_details,
}
use codecrafters_kafka_cpp.Api.Router.{route, main_router, build, with_middleware}
use codecrafters_kafka_cpp.Core.Hexdump.{dump_file}
use codecrafters_kafka_cpp.Broker.{
  log_file_path, Broker, Process, running, ended, start, serve, accepted, served, Reach, here,
  later,
}
use codecrafters_kafka_cpp.Broker.Starts.{start-metadata_log}
use codecrafters_kafka_cpp.Tests.Data.{memory}
use codecrafters_kafka_cpp.Tests.Metadata.{foo_batch, foo_batch-FitsRecordBatch, foo_log_size}
use codecrafters_kafka_cpp.Tests.Sessions.{wire, client_sends}

-- The metadata log is the only file.
abbrev pub disk : memory.State
disk path =
    if bytes_eq path log_file_path
    then some (some (metadata_log (foo_batch ∷ []) ++ 0 ∷ []))
    else none

foo_log-bytes : All IsByte (metadata_log (foo_batch ∷ []) ++ 0 ∷ [])
unfolding metadata_log record_batch_bytes record_bytes content_bytes value_bytes topic_bytes
    partition_bytes string_bytes array_bytes items_bytes varint_bytes groups be_bytes le_bytes
foo_log-bytes = omega arith

pub opening :
    (out : Bytes) × (dump_file memory log_file_path [] 16 disk ≡ ok out)
    × (start memory wire disk
        ≡ ok (record {
          cache = add_batches (foo_batch ∷ []) empty_cache;
          world = record {
            files = disk;
            console =
                topics (num_of_topics (add_batches (foo_batch ∷ []) empty_cache)) ∷ dumped out ∷ [];
          };
          clients = [];
        }))
opening =
    start-metadata_log memory wire disk (foo_batch ∷ []) (0 ∷ []) refl
      (foo_batch-FitsRecordBatch, tt) (omega arith) foo_log-bytes (rw foo_log_size (omega arith))

-- The broker in its loop, with one line for the topics and the dump.
abbrev pub at_start : Broker memory wire
at_start = record {
  cache = add_batches (foo_batch ∷ []) empty_cache;
  world = record {
    files = disk;
    console =
        topics (num_of_topics (add_batches (foo_batch ∷ []) empty_cache)) ∷ dumped opening.0 ∷ [];
  };
  clients = [];
}

pub started : start memory wire disk ≡ ok at_start
started = opening.2

start-metadata_log_example :
    (out : Bytes) × (dump_file memory log_file_path [] 16 disk ≡ ok out)
    × (start memory wire disk
        ≡ ok (record {
          cache = add_batches (foo_batch ∷ []) empty_cache;
          world = record {
            files = disk;
            console =
                topics (num_of_topics (add_batches (foo_batch ∷ []) empty_cache)) ∷ dumped out ∷ [];
          };
          clients = [];
        }))
start-metadata_log_example =
    start-metadata_log memory wire disk (foo_batch ∷ []) (0 ∷ []) refl
      (foo_batch-FitsRecordBatch, tt) (omega arith) foo_log-bytes (rw foo_log_size (omega arith))

-- A client that asks for the versions is accepted and gets its answer.
abbrev asked : wire.State
asked = (client_sends, [])

abbrev pub with_client : Broker memory wire
with_client = record at_start {
  world = print connected (print waiting at_start.world);
  clients = asked ∷ [];
}

broker_of : Process memory wire → Broker memory wire
broker_of (running b) = b
broker_of ended = at_start

-- The broker after the round of the client, whose response goes to the console too.
pub after_answer : Broker memory wire
after_answer = broker_of (serve memory wire with_client [] asked [])

eight_lines : length after_answer.world.console ≡ 8
unfolding after_answer broker_of serve session_round read_size read_body answer parse_body
    deserialize_request deserialize_header read_rest read_span read_be read_unsigned_varint
    varint_loop skip to_api_key get_request_header_version from_le byteswap le_bytes route
    main_router build with_middleware version_validator_middleware is_supported_version
    get_api_details find_api supported_apis in_range to_underlying logging_middleware handle
    dispatch handle_api_versions get_all_api_details print dump_body be_bytes header_bytes
eight_lines = refl

still_running : serve memory wire with_client [] asked [] ≡ running after_answer
unfolding after_answer broker_of serve session_round read_size read_body answer parse_body
    deserialize_request deserialize_header read_rest read_span read_be read_unsigned_varint
    varint_loop skip to_api_key get_request_header_version from_le byteswap le_bytes be_bytes
    header_bytes route main_router build with_middleware version_validator_middleware
    is_supported_version get_api_details find_api supported_apis in_range to_underlying
    logging_middleware handle dispatch
still_running = refl

pub reached : Reach memory wire at_start (running after_answer)
reached =
    let there : Reach memory wire at_start (serve memory wire with_client [] asked []) =
      later (later here (accepted asked)) (served [] asked [] refl) in
    rw still_running at there
