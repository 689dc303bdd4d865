-- ===== src/Api/ClientSession/Rounds.antt =====
-- A session from the first request of its client to the end of the connection.
use codecrafters_kafka_cpp.Common.{
  ℕ, zero, suc, ◌^◌, ◌<◌, ◌≡◌, List, [], ◌∷◌, ◌++◌, length, length-append, true, false, Option,
  Bytes, be_bytes, byteswap-from_le, ok, arith,
}
use codecrafters_kafka_cpp.Storage.FileSystem.{FileSystem}
use codecrafters_kafka_cpp.Api.Dto.Request.{RequestHeader, Request}
use codecrafters_kafka_cpp.Api.Dto.Request.Decode.{
  header_bytes, FitsHeader, FitsClient, deserialize_request-frame,
}
use codecrafters_kafka_cpp.Api.Dto.Response.{Response}
use codecrafters_kafka_cpp.Api.Dto.Response.Frame.{
  FitsBody, payload_bytes, frame_bytes, serialize_response-frame,
}
use codecrafters_kafka_cpp.Api.Handler.{World, HandlerFunc, disconnected, response_sent, print}
use codecrafters_kafka_cpp.Api.Controller.{parse_body}
use codecrafters_kafka_cpp.Api.ClientSession.{
  received, eof, Socket, Session, answer, read_body, read_size, session_round, handle_connection,
}

-- A request of a client and the response to it.
pub record Exchange : Type 0 where
  pub header : RequestHeader
  pub client : Option Bytes
  pub body : Bytes
  pub response : Response

abbrev pub request_bytes : Exchange → Bytes
request_bytes e = header_bytes e.header e.client ++ e.body

abbrev pub request_of : Exchange → Request
request_of e = record { message_size = length (request_bytes e); header = e.header; body = e.body }

pub record FitsExchange (e : Exchange) : Type 0 where
  pub header : FitsHeader e.header
  pub client : FitsClient e.client
  pub request : length (request_bytes e) < 2 ^ 32
  pub body : FitsBody e.response.body
  pub response : length (payload_bytes e.response) < 2 ^ 32

module _ (fs : FileSystem) (socket : Socket) (handle : HandlerFunc fs) where
  -- One exchange over the socket: the size of the request comes in, then the request, the handler
  -- gives the response, and the frame of the response goes out.
  abbrev pub Exchanges : Exchange → Session fs socket handle → Session fs socket handle → Type 0
  Exchanges e s s' =
      FitsExchange e
      × ((sized requested : socket.State) × (w : World fs) × (socket.receive 4 s.peer
            ≡ (received (be_bytes 4 (length (request_bytes e))), sized))
          × (socket.receive (length (request_bytes e)) sized
              ≡ (received (request_bytes e), requested))
          × (handle (request_of e) s.world ≡ ok (e.response, w))
          × (s'.world ≡ print response_sent w)
          × (socket.send (frame_bytes e.response) requested ≡ (true, s'.peer)))

  -- A row of exchanges, until the client is gone.
  abbrev pub Conversation :
      List Exchange → Session fs socket handle → Session fs socket handle → Type 0
  Conversation [] s s' =
      (socket.receive 4 s.peer ≡ (eof, s'.peer)) × (s'.world ≡ print disconnected s.world)
  Conversation (e ∷ es) s s' =
      (v : Session fs socket handle) × Exchanges e s v × Conversation es v s'

  answer-Exchanges :
      (e : Exchange) (s s' : Session fs socket handle) (requested : socket.State) (w : World fs)
      → FitsExchange e
      → handle (request_of e) s.world ≡ ok (e.response, w)
      → s'.world ≡ print response_sent w
      → socket.send (frame_bytes e.response) requested ≡ (true, s'.peer)
      → answer fs socket handle
          (length (request_bytes e))
          (request_bytes e)
          (record s { peer = requested })
        ≡ ok (true, s')
  unfolding answer parse_body
  answer-Exchanges e s s' requested w fits handled printed sent = rw (
    deserialize_request-frame e.header e.client e.body fits.header fits.client
        (omega (arith, length-append (header_bytes e.header e.client) e.body)),
    handled,
    serialize_response-frame e.response [] fits.body fits.response,
    sent,
    printed,
  )

  session_round-Exchanges :
      (e : Exchange) (s s' : Session fs socket handle)
      → Exchanges e s s'
      → session_round fs socket handle s ≡ ok (true, s')
  unfolding session_round read_size read_body
  session_round-Exchanges e s s'
        (fits, (sized, requested, w, size_in, request_in, handled, printed, sent)) =
      rw (size_in, byteswap-from_le 4 (length (request_bytes e)) fits.request, request_in)
        (answer-Exchanges e s s' requested w fits handled printed sent)

  session_round-gone :
      (s s' : Session fs socket handle)
      → socket.receive 4 s.peer ≡ (eof, s'.peer)
      → s'.world ≡ print disconnected s.world
      → session_round fs socket handle s ≡ ok (false, s')
  unfolding session_round read_size
  session_round-gone s s' gone same = rw (gone, same)

  -- A client that makes a row of requests, which the handler answers and whose parts and responses fit
  -- their fields, and then closes the connection is answered request by request, in its order: each
  -- frame that goes out is the size, the correlation identifier and the body of the response that the
  -- handler gives to that request, in the world that the requests before it have left, and a line is
  -- printed when it is out. The session ends with a line when the client is gone, and fuel above the
  -- number of requests is enough.
  pub handle_connection-Conversation :
      (es : List Exchange) (s s' : Session fs socket handle) (fuel : ℕ)
      → Conversation es s s'
      → length es < fuel
      → handle_connection fs socket handle fuel s ≡ ok s'
  unfolding handle_connection
  handle_connection-Conversation [] s s' zero c h = elim h [ ]
  handle_connection-Conversation (e ∷ es) s s' zero c h = elim h [ ]
  handle_connection-Conversation [] s s' (suc fuel) (gone, same) h =
      rw (session_round-gone s s' gone same)
  handle_connection-Conversation (e ∷ es) s s' (suc fuel) (v, exchanged, rest) h =
      rw (session_round-Exchanges e s v exchanged)
        (handle_connection-Conversation es v s' fuel rest (omega arith))
