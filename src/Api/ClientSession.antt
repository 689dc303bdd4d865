-- ===== src/Api/ClientSession.antt =====
-- src/api/client_session.cpp: the loop that answers one client.
pub mod Rounds
pub mod Offers
pub mod Asks
pub mod EndToEnd
use codecrafters_kafka_cpp.Common.{
  ℕ, zero, suc, ◌+◌, ◌≤◌, ◌≡◌, [], Bool, true, false, Bytes, length, from_le, byteswap,
  if◌then◌else◌, Outcome, ok, out_of_fuel, bind,
}
use codecrafters_kafka_cpp.Storage.FileSystem.{FileSystem}
use codecrafters_kafka_cpp.Api.Dto.Request.{Request, deserialize_request}
use codecrafters_kafka_cpp.Api.Dto.Response.{Response, serialize_response}
use codecrafters_kafka_cpp.Api.Handler.{
  World, HandlerFunc, disconnected, read_error, body_error, write_error, response_sent, print,
}
use codecrafters_kafka_cpp.Api.Controller.{parse_body}

-- The results of `asio::read` with an error code: the bytes asked for, the end of the file, or another
-- error.
pub data Received : Type 0 where
  received : Bytes → Received
  eof : Received
  failed : Received

-- The client's socket. `send` tells whether the write went without an error.
pub record Socket : Type 1 where
  pub State : Type 0
  pub receive : ℕ → State → Received × State
  pub send : Bytes → State → Bool × State

module _ (fs : FileSystem) (socket : Socket) (handle : HandlerFunc fs) where
  pub record Session : Type 0 where
    pub world : World fs
    pub peer : socket.State

  -- A request whose bytes are in: it is parsed, handled and answered. The flag is whether the write
  -- went well.
  unfoldable pub answer : ℕ → Bytes → Session → Outcome (Bool × Session)
  answer request_size request_body s = bind (parse_body deserialize_request request_body) λ request.
      bind (handle (record request { message_size = request_size }) s.world) λ (response, w).
        let sent = socket.send (serialize_response response []) s.peer in
        ok (
          sent.0,
          record { world = print (if sent.0 then response_sent else write_error) w; peer = sent.1 },
        )

  -- One round of `while (true)`: the flag is whether there is another.
  unfoldable pub read_body : ℕ → Received × socket.State → Session → Outcome (Bool × Session)
  read_body request_size (eof, peer) s =
      ok (false, record { world = print body_error s.world; peer = peer })
  read_body request_size (failed, peer) s =
      ok (false, record { world = print body_error s.world; peer = peer })
  read_body request_size (received body, peer) s =
      answer request_size body (record s { peer = peer })

  unfoldable pub read_size : Received × socket.State → Session → Outcome (Bool × Session)
  read_size (eof, peer) s = ok (false, record { world = print disconnected s.world; peer = peer })
  read_size (failed, peer) s = ok (false, record { world = print read_error s.world; peer = peer })
  read_size (received raw, peer) s =
      let request_size = byteswap 4 (from_le raw) in
      read_body request_size (socket.receive request_size peer) (record s { peer = peer })

  unfoldable pub session_round : Session → Outcome (Bool × Session)
  session_round s = read_size (socket.receive 4 s.peer) s

  unfoldable pub handle_connection : ℕ → Session → Outcome Session
  handle_connection zero s = out_of_fuel
  handle_connection (suc fuel) s =
      bind (session_round s)
        λ (again, s'). let rest = handle_connection fuel s' in if again then rest else ok s'
