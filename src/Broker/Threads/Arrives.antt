-- ===== src/Broker/Threads/Arrives.antt =====
-- A request that a client sends as its layout says comes to the thread as that request.
use codecrafters_kafka_cpp.Common.{
  ◌^◌, ◌<◌, ◌≡◌, length, length-append, some, be_bytes, byteswap-from_le, ok, arith,
}
use codecrafters_kafka_cpp.Metadata.Cache.{MetadataCache}
use codecrafters_kafka_cpp.Storage.FileSystem.{FileSystem}
use codecrafters_kafka_cpp.Api.Dto.Request.Decode.{
  header_bytes, FitsHeader, FitsClient, deserialize_request-frame,
}
use codecrafters_kafka_cpp.Api.Handler.{World}
use codecrafters_kafka_cpp.Api.Controller.{parse_body}
use codecrafters_kafka_cpp.Api.ClientSession.{received, Socket}
use codecrafters_kafka_cpp.Api.ClientSession.Rounds.{Exchange, request_bytes, request_of}
use codecrafters_kafka_cpp.Api.Program.Pipeline.{route_main}
use codecrafters_kafka_cpp.Broker.Threads.{waits, works, receive_body, receive_size, advance}

pub advance-arrives :
    (fs : FileSystem) (socket : Socket) (cache : MetadataCache) (w : World fs) (e : Exchange)
    (peer sized requested : socket.State)
    → FitsHeader e.header
    → FitsClient e.client
    → length (request_bytes e) < 2 ^ 32
    → socket.receive 4 peer ≡ (received (be_bytes 4 (length (request_bytes e))), sized)
    → socket.receive (length (request_bytes e)) sized ≡ (received (request_bytes e), requested)
    → advance fs socket cache w (waits peer)
      ≡ ok (w, some (works requested (request_of e) (route_main cache (request_of e))))
unfolding advance receive_size receive_body parse_body
advance-arrives fs socket cache w e peer sized requested header client small size_in request_in =
    rw (
      size_in,
      byteswap-from_le 4 (length (request_bytes e)) small,
      request_in,
      deserialize_request-frame e.header e.client e.body header client
          (omega (arith, small, length-append (header_bytes e.header e.client) e.body)),
    )
