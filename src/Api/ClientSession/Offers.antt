-- ===== src/Api/ClientSession/Offers.antt =====
-- What a client has to offer for a conversation, whatever the handler is.
use codecrafters_kafka_cpp.Common.{◌≡◌, refl, List, [], ◌∷◌, length, true, be_bytes, ok}
use codecrafters_kafka_cpp.Storage.FileSystem.{FileSystem}
use codecrafters_kafka_cpp.Api.Dto.Response.Frame.{frame_bytes}
use codecrafters_kafka_cpp.Api.Handler.{World, HandlerFunc, disconnected, response_sent, print}
use codecrafters_kafka_cpp.Api.ClientSession.{received, eof, Socket}
use codecrafters_kafka_cpp.Api.ClientSession.Rounds.{
  Exchange, request_bytes, request_of, FitsExchange, Conversation,
}

-- What the socket has: the frames of the requests come in one after the other, each after the frame
-- of the response before it has gone out, and then the client is gone.
abbrev pub Offers : (socket : Socket) → List Exchange → socket.State → socket.State → Type 0
Offers socket [] p p' = socket.receive 4 p ≡ (eof, p')
Offers socket (e ∷ es) p p' =
    FitsExchange e
    × ((sized requested next : socket.State) × (socket.receive 4 p
          ≡ (received (be_bytes 4 (length (request_bytes e))), sized))
        × (socket.receive (length (request_bytes e)) sized
            ≡ (received (request_bytes e), requested))
        × (socket.send (frame_bytes e.response) requested ≡ (true, next))
        × Offers socket es next p')

module _ (fs : FileSystem) (socket : Socket) (handle : HandlerFunc fs) where
  -- The handler gives the responses, one after the other, and the session prints its lines.
  abbrev pub Handles : List Exchange → World fs → World fs → Type 0
  Handles [] w w' = w' ≡ print disconnected w
  Handles (e ∷ es) w w' =
      (v : World fs) × (handle (request_of e) w ≡ ok (e.response, v))
      × Handles es (print response_sent v) w'

  pub Offers-Conversation :
      (es : List Exchange) (p p' : socket.State) (w w' : World fs)
      → Offers socket es p p'
      → Handles es w w'
      → Conversation fs socket handle es
          (record { world = w; peer = p })
          (record { world = w'; peer = p' })
  Offers-Conversation [] p p' w w' gone same = (gone, same)
  Offers-Conversation (e ∷ es) p p' w w'
        (fits, (sized, requested, next, size_in, request_in, sent, rest)) (v, answered, more) =
      (
        record { world = print response_sent v; peer = next },
        (fits, (sized, requested, v, size_in, request_in, answered, refl, sent)),
        Offers-Conversation es next p' (print response_sent v) w' rest more,
      )
