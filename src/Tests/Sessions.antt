-- ===== src/Tests/Sessions.antt =====
-- A session with one request.
use codecrafters_kafka_cpp.Common.{
  ◌≡◌, refl, [], ◌∷◌, ◌++◌, true, length, none, Bytes, be_bytes, le_bytes, leb, take, drop,
  if◌then◌else◌, ok, arith,
}
use codecrafters_kafka_cpp.Core.Wire.{varint_bytes, groups, array_bytes, items_bytes}
use codecrafters_kafka_cpp.Api.Registry.{api_versions, to_underlying, get_request_header_version}
use codecrafters_kafka_cpp.Api.Dto.ApiVersions.{get_all_api_details, supported_apis}
use codecrafters_kafka_cpp.Api.Dto.ApiVersions.Encode.{api_versions_bytes, api_details_bytes}
use codecrafters_kafka_cpp.Api.Dto.Request.Decode.{header_bytes}
use codecrafters_kafka_cpp.Api.Dto.Response.Frame.{frame_bytes, payload_bytes, body_bytes}
use codecrafters_kafka_cpp.Api.Controller.{handle, handle_api_versions, dispatch}
use codecrafters_kafka_cpp.Api.Handler.{disconnected, response_sent, print}
use codecrafters_kafka_cpp.Api.ClientSession.{received, eof, Socket, Session, handle_connection}
use codecrafters_kafka_cpp.Api.ClientSession.Rounds.{
  Exchange, request_bytes, FitsExchange, Conversation, handle_connection-Conversation,
}
use codecrafters_kafka_cpp.Tests.Data.{memory, no_files, foo_cache}

-- The bytes that the client has still to send, and those that it has got.
abbrev pub wire : Socket
wire = record {
  State = Bytes × Bytes;
  receive =
      λ n s. if leb n (length s.0) then (received (take n s.0), (drop n s.0, s.1)) else (eof, s);
  send = λ bytes s. (true, (s.0, s.1 ++ bytes));
}

abbrev pub versions_exchange : Exchange
versions_exchange = record {
  header = record { api = api_versions; version = 4; correlation_id = 7 };
  client = none;
  body = [];
  response = handle_api_versions (record {
    message_size = 10;
    header = record { api = api_versions; version = 4; correlation_id = 7 };
    body = [];
  });
}

abbrev pub client_sends : Bytes
client_sends = be_bytes 4 10 ++ (request_bytes versions_exchange)

abbrev opened : Session memory wire (handle memory foo_cache)
opened = record { world = record { files = no_files; console = [] }; peer = (client_sends, []) }

abbrev closed : Session memory wire (handle memory foo_cache)
closed = record {
  world = record { files = no_files; console = response_sent ∷ disconnected ∷ [] };
  peer = ([], frame_bytes versions_exchange.response);
}

versions_exchange-FitsExchange : FitsExchange versions_exchange
unfolding handle_api_versions get_all_api_details supported_apis header_bytes be_bytes le_bytes
    to_underlying get_request_header_version payload_bytes body_bytes api_versions_bytes
    api_details_bytes array_bytes items_bytes varint_bytes groups
versions_exchange-FitsExchange = record {
  header = record {
    key = tt;
    api = omega arith;
    version = omega arith;
    correlation_id = omega arith;
  };
  client = tt;
  request = omega arith;
  body = omega arith;
  response = omega arith;
}

versions-Conversation :
    Conversation memory wire (handle memory foo_cache) (versions_exchange ∷ []) opened closed
unfolding print handle dispatch handle_api_versions header_bytes be_bytes le_bytes to_underlying
    get_request_header_version
versions-Conversation = (
  record closed { world = record { files = no_files; console = response_sent ∷ [] } },
  (
    versions_exchange-FitsExchange,
    (
      (header_bytes versions_exchange.header none, []),
      ([], []),
      opened.world,
      refl,
      refl,
      refl,
      refl,
      refl,
    ),
  ),
  (refl, refl),
)

-- The client gets the frame of the response, and the session ends.
handle_connection-Conversation_example :
    handle_connection memory wire (handle memory foo_cache) 2 opened ≡ ok closed
handle_connection-Conversation_example =
    handle_connection-Conversation memory wire (handle memory foo_cache) (versions_exchange ∷ [])
      opened closed 2 versions-Conversation (omega arith)
