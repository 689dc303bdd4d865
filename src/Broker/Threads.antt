-- ===== src/Broker/Threads.antt =====
-- src/main.cpp and src/api/client_session.cpp: the threads of the broker, interleaved between any two
-- operations on what they share.
pub mod Arrives
pub mod Middle
pub mod Rounds
pub mod Steps
pub mod Keeps
pub mod Invariant
use codecrafters_kafka_cpp.Common.{
  ℕ, ◌≡◌, List, [], ◌∷◌, ◌++◌, map, Bool, true, false, Option, none, some, Bytes, from_le, byteswap,
  if◌then◌else◌, Outcome, ok, throws, undefined, out_of_fuel, bind,
}
use codecrafters_kafka_cpp.Metadata.Cache.{MetadataCache}
use codecrafters_kafka_cpp.Storage.FileSystem.{FileSystem}
use codecrafters_kafka_cpp.Api.Dto.Request.{Request, deserialize_request}
use codecrafters_kafka_cpp.Api.Dto.Response.{Response, serialize_response}
use codecrafters_kafka_cpp.Api.Handler.{
  World, disconnected, read_error, body_error, write_error, response_sent, waiting, connected,
  accept_error, print,
}
use codecrafters_kafka_cpp.Api.Controller.{parse_body}
use codecrafters_kafka_cpp.Api.ClientSession.{Received, received, eof, failed, Socket}
use codecrafters_kafka_cpp.Api.Program.{Program, returns, reads, makes, appends, prints, appended}
use codecrafters_kafka_cpp.Api.Program.Pipeline.{route_main}
use codecrafters_kafka_cpp.Broker.{Broker}

module _ (fs : FileSystem) (socket : Socket) where
  -- The thread of a client, at the head of its loop or with a request that it handles, and what is
  -- left of the handling.
  pub data Thread : Type 0 where
    waits : socket.State → Thread
    works : socket.State → Request → Program Response → Thread

  -- `accepting` is whether the first thread waits for a client, or is at the head of its loop.
  pub record Threads : Type 0 where
    pub cache : MetadataCache
    pub world : World fs
    pub threads : List Thread
    pub accepting : Bool

  pub data Process : Type 0 where
    running : Threads → Process
    ended : Process

  -- A thread after a step of its own, none if it has come to its end.
  abbrev pub Moved : Type 0
  Moved = Outcome (World fs × Option Thread)

  -- The request is read and parsed. The client's socket is the thread's own.
  unfoldable pub receive_body : MetadataCache → World fs → ℕ → Received × socket.State → Moved
  receive_body cache w request_size (eof, peer) = ok (print body_error w, none)
  receive_body cache w request_size (failed, peer) = ok (print body_error w, none)
  receive_body cache w request_size (received body, peer) =
      bind (parse_body deserialize_request body) λ request.
        let sized : Request = record request { message_size = request_size } in
        ok (w, some (works peer sized (route_main cache sized)))

  unfoldable pub receive_size : MetadataCache → World fs → Received × socket.State → Moved
  unfolding receive_body
  receive_size cache w (eof, peer) = ok (print disconnected w, none)
  receive_size cache w (failed, peer) = ok (print read_error w, none)
  receive_size cache w (received raw, peer) =
      let request_size = byteswap 4 (from_le raw) in
      receive_body cache w request_size (socket.receive request_size peer)

  -- The response is written; if that fails, the thread is at its end.
  unfoldable pub send_response : World fs → socket.State → Response → Moved
  send_response w peer response =
      let (good, peer') = socket.send (serialize_response response []) peer in
      ok (
        print (if good then response_sent else write_error) w,
        if good then some (waits peer') else none,
      )

  -- One operation on what the threads share, or what is next of the thread's own.
  unfoldable pub advance : MetadataCache → World fs → Thread → Moved
  unfolding receive_size send_response
  advance cache w (waits peer) = receive_size cache w (socket.receive 4 peer)
  advance cache w (works peer request (returns r)) =
      bind r λ response. send_response w peer response
  advance cache w (works peer request (reads path k)) =
      ok (w, some (works peer request (k (fs.read_file path w.files))))
  advance cache w (works peer request (makes path p)) =
      bind (fs.create_directories path w.files)
        λ files. ok (record w { files = files }, some (works peer request p))
  advance cache w (works peer request (appends path bytes k)) =
      appended fs (λ good v. ok (v, some (works peer request (k good)))) w
        (fs.append_file path bytes w.files)
  advance cache w (works peer request (prints l p)) = ok (print l w, some (works peer request p))

  abbrev pub after : (t : Threads) → List Thread → List Thread → Moved → Process
  after t before behind (ok (w, some thread)) =
      running (record t { world = w; threads = before ++ thread ∷ behind })
  after t before behind (ok (w, none)) =
      running (record t { world = w; threads = before ++ behind })
  after t before behind (throws e) = ended
  after t before behind undefined = ended
  after t before behind out_of_fuel = ended

  -- What happens next: the first thread says that it waits, or it accepts a client, or that fails; or the
  -- thread of a client makes a step.
  pub data Step (t : Threads) : Process → Type 0 where
    waited :
        t.accepting ≡ false
        → Step t (running (record t { world = print waiting t.world; accepting = true }))
    accepted :
        (peer : socket.State)
        → t.accepting ≡ true
        → Step t (
            running (record t {
              world = print connected t.world;
              threads = t.threads ++ waits peer ∷ [];
              accepting = false;
            }))
    accept_failed :
        t.accepting ≡ true
        → Step t (running (record t { world = print accept_error t.world; accepting = false }))
    advanced :
        (before : List Thread) (thread : Thread) (behind : List Thread)
        → t.threads ≡ before ++ thread ∷ behind
        → Step t (after t before behind (advance t.cache t.world thread))

  pub data Reach (t₀ : Threads) : Process → Type 0 where
    here : Reach t₀ (running t₀)
    later : {t : Threads} {p : Process} → Reach t₀ (running t) → Step t p → Reach t₀ p

  -- The broker of whole rounds: its clients are threads at the heads of their loops.
  abbrev pub at_heads : Broker fs socket → Threads
  at_heads b = record {
    cache = b.cache;
    world = b.world;
    threads = map waits b.clients;
    accepting = false;
  }
