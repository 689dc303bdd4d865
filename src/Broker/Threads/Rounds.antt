-- ===== src/Broker/Threads/Rounds.antt =====
-- The broker of whole rounds is one way in which the threads may interleave.
use mathlib.Core.Path.{subst}
use mathlib.Core.List.{map-append}
use codecrafters_kafka_cpp.Common.{
  ℕ, ◌≡◌, refl, sym, ap, ◌∙◌, List, [], ◌∷◌, ◌++◌, map, Bool, true, false, none, some, from_le,
  byteswap, if◌then◌else◌, Outcome, ok, throws, undefined, out_of_fuel, bind,
}
use codecrafters_kafka_cpp.Metadata.Cache.{MetadataCache}
use codecrafters_kafka_cpp.Storage.FileSystem.{FileSystem}
use codecrafters_kafka_cpp.Api.Dto.Request.{Request, deserialize_request}
use codecrafters_kafka_cpp.Api.Dto.Response.{serialize_response}
use codecrafters_kafka_cpp.Api.Handler.{
  World, waiting, connected, response_sent, write_error, print,
}
use codecrafters_kafka_cpp.Api.Controller.{parse_body}
use codecrafters_kafka_cpp.Api.Router.{route, main_router}
use codecrafters_kafka_cpp.Api.ClientSession.{
  Received, received, eof, failed, Socket, Session, answer, read_body, read_size, session_round,
}
use codecrafters_kafka_cpp.Api.Program.{run}
use codecrafters_kafka_cpp.Api.Program.Runs.{bind_assoc}
use codecrafters_kafka_cpp.Api.Program.Pipeline.{route_main}
use codecrafters_kafka_cpp.Api.Program.Refines.{route_main-run}
use codecrafters_kafka_cpp.Broker as Whole
use codecrafters_kafka_cpp.Broker.{Broker, Round, after_round, serve}
use codecrafters_kafka_cpp.Broker.Threads.{
  Thread, waits, works, Threads, Process, running, ended, Moved, receive_body, receive_size,
  send_response, advance, waited, accepted, accept_failed, Reach, here, later, at_heads,
}
use codecrafters_kafka_cpp.Broker.Threads.Middle.{at, middle, rest, middle_step, handled-Reach}

module _ {fs : FileSystem} {socket : Socket} (t₀ : Threads fs socket) (cache : MetadataCache)
    (front back : List (Thread fs socket)) where
  abbrev Middle : Moved fs socket → Process fs socket
  Middle m = middle t₀ cache front back m

  -- What a round of the session comes to, as a step of the thread.
  abbrev of_round :
      Outcome (Bool × Session fs socket (route (main_router fs cache))) → Moved fs socket
  of_round r = bind r λ (again, s). ok (s.world, if again then some (waits s.peer) else none)

  -- A request that has come in is parsed, handled and answered.
  answered-Reach :
      (peer : socket.State) (size : ℕ) (w : World fs) (r : Outcome Request)
      → Reach fs socket t₀ (
          Middle (
            bind r λ request. ok (
              w,
              some (
                  works peer
                    (record request { message_size = size })
                    (route_main cache (record request { message_size = size }))),
            )))
      → Reach fs socket t₀ (
          Middle (
            of_round (
              bind r λ request.
                bind
                  (route (main_router fs cache) (record request { message_size = size }) w)
                  λ (response, v).
                    let sent = socket.send (serialize_response response []) peer in
                    ok (
                      sent.0,
                      record {
                        world = print (if sent.0 then response_sent else write_error) v;
                        peer = sent.1;
                      },
                    ))))
  unfolding send_response
  answered-Reach peer size w (ok request) reached =
      let sized : Request = record request { message_size = size } in
      let done : Reach fs socket t₀
          (Middle (rest t₀ cache front back peer (run fs (route_main cache sized) w))) =
        handled-Reach t₀ cache front back peer sized (route_main cache sized) w reached in
      subst (λ (m : Moved fs socket). Reach fs socket t₀ (Middle m))
        (ap (rest t₀ cache front back peer) (route_main-run fs cache sized w)
          ∙ bind_assoc (route (main_router fs cache) sized w)
              (λ (response, v). ok (
                (socket.send (serialize_response response []) peer).0,
                record {
                  world =
                      print
                        (if (socket.send (serialize_response response []) peer).0
                          then response_sent
                          else write_error)
                        v;
                  peer = (socket.send (serialize_response response []) peer).1;
                },
              ))
              (λ (again, s). ok (s.world, if again then some (waits s.peer) else none)))
        done
  answered-Reach peer size w (throws x) reached = reached
  answered-Reach peer size w undefined reached = reached
  answered-Reach peer size w out_of_fuel reached = reached

  body-Reach :
      (size : ℕ) (r : Received × socket.State) (w : World fs) (peer : socket.State)
      → Reach fs socket t₀ (Middle (receive_body fs socket cache w size r))
      → Reach fs socket t₀ (
          Middle (
            of_round (
              read_body fs socket
                (route (main_router fs cache))
                size
                r
                (record { world = w; peer = peer }))))
  unfolding receive_body read_body answer
  body-Reach size (eof, there) w peer reached = reached
  body-Reach size (failed, there) w peer reached = reached
  body-Reach size (received body, there) w peer reached =
      answered-Reach there size w (parse_body deserialize_request body) reached

  size-Reach :
      (r : Received × socket.State) (w : World fs) (peer : socket.State)
      → Reach fs socket t₀ (Middle (receive_size fs socket cache w r))
      → Reach fs socket t₀ (
          Middle (
            of_round (
              read_size fs socket
                (route (main_router fs cache))
                r
                (record { world = w; peer = peer }))))
  unfolding receive_size read_size
  size-Reach (eof, there) w peer reached = reached
  size-Reach (failed, there) w peer reached = reached
  size-Reach (received raw, there) w peer reached =
      let size = byteswap 4 (from_le raw) in
      body-Reach size (socket.receive size there) w there reached

  -- A round of the session of the thread in the middle.
  round-Reach :
      (w : World fs) (peer : socket.State)
      → Reach fs socket t₀ (running (at t₀ cache front back w (waits peer)))
      → Reach fs socket t₀ (
          Middle (
            of_round (
              session_round fs socket
                (route (main_router fs cache))
                (record { world = w; peer = peer }))))
  unfolding advance session_round
  round-Reach w peer reached =
      size-Reach (socket.receive 4 peer) w peer
        (middle_step t₀ cache front back w (waits peer) _ refl reached)

module _ {fs : FileSystem} {socket : Socket} where
  -- The same point of the run, in the broker of threads.
  abbrev pub in_threads : Whole.Process fs socket → Process fs socket
  in_threads (Whole.running b) = running (at_heads fs socket b)
  in_threads Whole.ended = ended

  -- Threads at the heads of their loops.
  abbrev heads : List socket.State → List (Thread fs socket)
  heads peers = map waits peers

  at_threads : World fs → MetadataCache → List (Thread fs socket) → Process fs socket
  at_threads w cache threads =
      running (record { cache = cache; world = w; threads = threads; accepting = false })

  after_round-in_threads :
      (t₀ : Threads fs socket) (b : Broker fs socket) (before behind : List socket.State)
      (r : Round fs socket b.cache)
      → middle t₀ b.cache
          (heads before)
          (heads behind)
          (of_round t₀ b.cache (heads before) (heads behind) r)
        ≡ in_threads (after_round fs socket b before behind r)
  unfolding at_threads
  after_round-in_threads t₀ b before behind (ok (true, s)) =
      ap (at_threads s.world b.cache) (sym (map-append waits before (s.peer ∷ behind)))
  after_round-in_threads t₀ b before behind (ok (false, s)) =
      ap (at_threads s.world b.cache) (sym (map-append waits before behind))
  after_round-in_threads t₀ b before behind (throws e) = refl
  after_round-in_threads t₀ b before behind undefined = refl
  after_round-in_threads t₀ b before behind out_of_fuel = refl

  Step-in_threads :
      (t₀ : Threads fs socket) (b : Broker fs socket) {p : Whole.Process fs socket}
      → Reach fs socket t₀ (running (at_heads fs socket b))
      → Whole.Step fs socket b p
      → Reach fs socket t₀ (in_threads p)
  unfolding serve at_threads
  Step-in_threads t₀ b reached (Whole.accepted peer) =
      subst
        (λ (l : List (Thread fs socket)).
          Reach fs socket t₀ (at_threads (print connected (print waiting b.world)) b.cache l))
        (sym (map-append waits b.clients (peer ∷ [])))
        (later (later reached (waited refl)) (accepted peer refl))
  Step-in_threads t₀ b reached Whole.accept_failed =
      later (later reached (waited refl)) (accept_failed refl)
  Step-in_threads t₀ b reached (Whole.served before peer behind e) =
      let placed : Reach fs socket t₀
          (at_threads b.world b.cache (heads before ++ waits peer ∷ heads behind)) =
        subst (λ (l : List (Thread fs socket)). Reach fs socket t₀ (at_threads b.world b.cache l))
          (ap heads e ∙ map-append waits before (peer ∷ behind)) reached in
      subst (Reach fs socket t₀) (after_round-in_threads t₀ b before behind _)
        (round-Reach t₀ b.cache (heads before) (heads behind) b.world peer placed)

-- Whatever the broker reaches by whole rounds of its sessions, one after the other, its threads can
-- reach by single operations: the same cache, files, console and clients, or the same end of the
-- process.
pub Reach-in_threads :
    {fs : FileSystem} {socket : Socket} (b₀ : Broker fs socket) {p : Whole.Process fs socket}
    → Whole.Reach fs socket b₀ p
    → Reach fs socket (at_heads fs socket b₀) (in_threads p)
Reach-in_threads b₀ Whole.here = here
Reach-in_threads {fs} {socket} b₀ (Whole.later {b} reached step) =
    Step-in_threads (at_heads fs socket b₀) b (Reach-in_threads b₀ reached) step
