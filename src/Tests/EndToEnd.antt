-- ===== src/Tests/EndToEnd.antt =====
-- A session with a Produce and a Fetch.
use codecrafters_kafka_cpp.Common.{
  ◌≡◌, refl, inl, [], ◌∷◌, ◌++◌, length, none, Bytes, be_bytes, le_bytes, ok, arith,
}
use codecrafters_kafka_cpp.Core.Wire.{
  varint_bytes, groups, array_bytes, items_bytes, string_bytes, nullable_bytes, tag_buffer_bytes,
}
use codecrafters_kafka_cpp.Storage.LogFiles.Append.{log_content}
use codecrafters_kafka_cpp.Storage.LogParser.Batches.{batch_bytes, log_of}
use codecrafters_kafka_cpp.Storage.LogParser.Extract.{from_offset}
use codecrafters_kafka_cpp.Api.Registry.{fetch, produce, to_underlying, get_request_header_version}
use codecrafters_kafka_cpp.Api.Dto.ApiVersions.{
  is_supported_version, get_api_details, find_api, supported_apis, in_range,
}
use codecrafters_kafka_cpp.Api.Dto.Fetch.Decode.{
  fetch_bytes, fetch_topic_bytes, fetch_partition_bytes,
}
use codecrafters_kafka_cpp.Api.Dto.Fetch.Encode.{
  fetch_response_bytes, fetch_topic_response_bytes, fetch_partition_response_bytes, records_bytes,
}
use codecrafters_kafka_cpp.Api.Dto.Produce.Decode.{
  produce_bytes, produce_topic_bytes, produce_partition_bytes,
}
use codecrafters_kafka_cpp.Api.Dto.Produce.Encode.{
  produce_response_bytes, produce_topic_response_bytes, produce_partition_response_bytes,
}
use codecrafters_kafka_cpp.Api.Dto.Request.{RequestHeader}
use codecrafters_kafka_cpp.Api.Dto.Request.Decode.{header_bytes}
use codecrafters_kafka_cpp.Api.Dto.Response.Frame.{frame_bytes, payload_bytes, body_bytes}
use codecrafters_kafka_cpp.Api.Handler.{World}
use codecrafters_kafka_cpp.Metadata.Cache.{find, get_partitions}
use codecrafters_kafka_cpp.Api.Controller.Produce.{Lists}
use codecrafters_kafka_cpp.Api.Controller.Visible.{accepted_response, records_response}
use codecrafters_kafka_cpp.Api.Router.{route, main_router}
use codecrafters_kafka_cpp.Api.ClientSession.{Session, handle_connection}
use codecrafters_kafka_cpp.Api.ClientSession.Rounds.{Exchange, request_bytes, FitsExchange}
use codecrafters_kafka_cpp.Api.ClientSession.Offers.{Offers}
use codecrafters_kafka_cpp.Api.ClientSession.Asks.{AsksToProduce, AsksToFetch}
use codecrafters_kafka_cpp.Api.ClientSession.EndToEnd.{handle_connection-Offers}
use codecrafters_kafka_cpp.Tests.Data.{
  memory, memory-IsReliable, no_files, foo, foo_id, foo_topic, foo_cache,
}
use codecrafters_kafka_cpp.Tests.Topics.{foo_cache-IsConsistent, foo_by_id}
use codecrafters_kafka_cpp.Tests.Logs.{batch_at, batch_at-0, batch_at-3}
use codecrafters_kafka_cpp.Tests.Requests.{fetch_foo, fetch_foo-FitsFetch}
use codecrafters_kafka_cpp.Tests.Sessions.{wire}
use codecrafters_kafka_cpp.Tests.Visible.{produce_two, produce_two-FitsProduce}

abbrev produce_header : RequestHeader
produce_header = record { api = produce; version = 11; correlation_id = 7 }

abbrev fetch_header : RequestHeader
fetch_header = record { api = fetch; version = 16; correlation_id = 8 }

abbrev pub produce_exchange : Exchange
produce_exchange = record {
  header = produce_header;
  client = none;
  body = produce_bytes [] produce_two;
  response =
      accepted_response (record { message_size = 0; header = produce_header; body = [] }) foo 0;
}

abbrev fetch_exchange : Exchange
fetch_exchange = record {
  header = fetch_header;
  client = none;
  body = fetch_bytes fetch_foo;
  response =
      records_response (record { message_size = 0; header = fetch_header; body = [] }) foo_id 0
        (log_of (from_offset 2 (batch_at 0 ∷ batch_at 3 ∷ [])));
}

pub foo-Lists : Lists 0 (get_partitions foo_id foo_cache)
unfolding get_partitions find
foo-Lists = inl refl

abbrev opened : Session memory wire (route (main_router memory foo_cache))
opened = record {
  world = record { files = no_files; console = [] };
  peer = (
    be_bytes 4 60
        ++ (request_bytes produce_exchange ++ (be_bytes 4 84 ++ request_bytes fetch_exchange)),
    [],
  );
}

pub sizes :
    (length (request_bytes produce_exchange) ≡ 60) × (length (request_bytes fetch_exchange) ≡ 84)
unfolding header_bytes produce_bytes produce_topic_bytes produce_partition_bytes fetch_bytes
    fetch_topic_bytes fetch_partition_bytes array_bytes items_bytes varint_bytes groups be_bytes
    le_bytes tag_buffer_bytes string_bytes nullable_bytes log_of batch_bytes to_underlying
    get_request_header_version
sizes = (refl, refl)

pub produce_exchange-FitsExchange : FitsExchange produce_exchange
unfolding to_underlying payload_bytes body_bytes produce_response_bytes produce_topic_response_bytes
    produce_partition_response_bytes array_bytes items_bytes varint_bytes groups be_bytes le_bytes
    string_bytes nullable_bytes
produce_exchange-FitsExchange = record {
  header = record {
    key = tt;
    api = omega arith;
    version = omega arith;
    correlation_id = omega arith;
  };
  client = tt;
  request = rw sizes.0 (omega arith);
  body = record {
    count = omega arith;
    responses = (
      record {
        name = omega arith;
        count = omega arith;
        partitions = (record { count = omega arith; messages = tt; error_message = tt }, tt);
      },
      tt,
    );
  };
  response = omega arith;
}

fetch_exchange-FitsExchange : FitsExchange fetch_exchange
unfolding to_underlying payload_bytes body_bytes fetch_response_bytes fetch_topic_response_bytes
    fetch_partition_response_bytes array_bytes items_bytes varint_bytes groups be_bytes le_bytes
    string_bytes nullable_bytes log_of batch_bytes from_offset records_bytes
fetch_exchange-FitsExchange = record {
  header = record {
    key = tt;
    api = omega arith;
    version = omega arith;
    correlation_id = omega arith;
  };
  client = tt;
  request = rw sizes.1 (omega arith);
  body = record {
    count = omega arith;
    responses = (
      record {
        count = omega arith;
        partitions = (record { aborted_transactions = omega arith; records = omega arith }, tt);
      },
      tt,
    );
  };
  response = omega arith;
}

pub asks_to_produce : AsksToProduce produce_exchange foo 0 (log_of (batch_at 0 ∷ batch_at 3 ∷ []))
unfolding is_supported_version get_api_details find_api supported_apis in_range to_underlying
asks_to_produce = record {
  request = produce_two;
  key = refl;
  supported = refl;
  fits = produce_two-FitsProduce;
  body = refl;
  topics = refl;
  response = refl;
}

asks_to_fetch :
    AsksToFetch fetch_exchange foo_id 0 2 (log_of (from_offset 2 (batch_at 0 ∷ batch_at 3 ∷ [])))
unfolding is_supported_version get_api_details find_api supported_apis in_range to_underlying
asks_to_fetch = record {
  request = fetch_foo;
  partition = record {
    index = 0;
    current_leader_epoch = 0;
    fetch_offset = 2;
    last_fetched_epoch = 0;
    log_start_offset = 0;
    partition_max_bytes = 1048576;
  };
  key = refl;
  supported = refl;
  fits = fetch_foo-FitsFetch;
  body = refl;
  topics = refl;
  place = refl;
  wanted = refl;
  response = refl;
}

-- What the client has got when it is gone.
abbrev got : Bytes
got = frame_bytes produce_exchange.response ++ frame_bytes fetch_exchange.response

offers : Offers wire (produce_exchange ∷ fetch_exchange ∷ []) opened.peer ([], got)
unfolding header_bytes produce_bytes produce_topic_bytes produce_partition_bytes fetch_bytes
    fetch_topic_bytes fetch_partition_bytes array_bytes items_bytes varint_bytes groups be_bytes
    le_bytes tag_buffer_bytes string_bytes nullable_bytes log_of batch_bytes to_underlying
    get_request_header_version
offers = (
  produce_exchange-FitsExchange,
  (
    (request_bytes produce_exchange ++ (be_bytes 4 84 ++ request_bytes fetch_exchange), []),
    (be_bytes 4 84 ++ request_bytes fetch_exchange, []),
    (be_bytes 4 84 ++ request_bytes fetch_exchange, frame_bytes produce_exchange.response),
    refl,
    refl,
    refl,
    (
      fetch_exchange-FitsExchange,
      (
        (request_bytes fetch_exchange, frame_bytes produce_exchange.response),
        ([], frame_bytes produce_exchange.response),
        ([], got),
        refl,
        refl,
        refl,
        refl,
      ),
    ),
  ),
)

handle_connection-Offers_example :
    (w : World memory) × (handle_connection memory wire
        (route (main_router memory foo_cache))
        3
        opened
      ≡ ok (record { world = w; peer = ([], got) }))
    × (log_content memory foo 0 w.files ≡ log_of (batch_at 0 ∷ batch_at 3 ∷ []))
unfolding log_of batch_bytes be_bytes le_bytes
handle_connection-Offers_example =
    handle_connection-Offers memory-IsReliable foo_cache wire produce_exchange fetch_exchange
      foo_topic foo_id 0 2 [] (batch_at 0 ∷ batch_at 3 ∷ []) opened ([], got) 3
      foo_cache-IsConsistent foo_by_id foo-Lists refl (batch_at-0, (batch_at-3, tt)) (omega arith)
      asks_to_produce asks_to_fetch offers (omega arith)
