-- ===== src/Broker/Threads/Invariant.antt =====
-- What holds however the operations of the threads follow one another.
use mathlib.Core.Path.{subst}
use codecrafters_kafka_cpp.Common.{◌≡◌, refl, List, [], ◌∷◌, ◌++◌, map, All, ok}
use codecrafters_kafka_cpp.Common.Returns.{Returns-elim}
use codecrafters_kafka_cpp.Storage.FileSystem.{FileSystem}
use codecrafters_kafka_cpp.Storage.LogFiles.Append.{IsReliable}
use codecrafters_kafka_cpp.Api.Dto.Request.{Request}
use codecrafters_kafka_cpp.Api.Dto.Response.{Response}
use codecrafters_kafka_cpp.Api.Router.Extends.{Extends, Extends-refl}
use codecrafters_kafka_cpp.Api.ClientSession.{Socket}
use codecrafters_kafka_cpp.Api.Program.{pure}
use codecrafters_kafka_cpp.Api.Program.Ensures.{Ensures}
use codecrafters_kafka_cpp.Api.Program.Answers.{Answered}
use codecrafters_kafka_cpp.Broker.{Broker, metadata_of, start}
use codecrafters_kafka_cpp.Broker.Starts.{IsStarted, start-IsStarted}
use codecrafters_kafka_cpp.Broker.Threads.{
  Thread, waits, works, Threads, Process, running, Reach, here, later, at_heads,
}
use codecrafters_kafka_cpp.Broker.Threads.Keeps.{
  All-split, Holds, Arrival, IsHandled, Inv, Step-Inv,
}

module _ {fs : FileSystem} {socket : Socket} where
  at_heads-IsHandled :
      (t₀ t : Threads fs socket) (peers : List socket.State)
      → All (IsHandled t₀ t) (map waits peers)
  unfolding IsHandled
  at_heads-IsHandled t₀ t [] = tt
  at_heads-IsHandled t₀ t (peer ∷ peers) = (tt, at_heads-IsHandled t₀ t peers)

  Reach-Inv :
      (b : Broker fs socket) {q : Process fs socket}
      → IsReliable fs
      → Reach fs socket (at_heads fs socket b) q
      → Holds (Inv (at_heads fs socket b)) q
  Reach-Inv b reliable here = record {
    same = refl;
    extended = Extends-refl b.cache b.world.files;
    handled = at_heads-IsHandled (at_heads fs socket b) (at_heads fs socket b) b.clients;
  }
  Reach-Inv b reliable (later {t} reached step) =
      Step-Inv reliable (at_heads fs socket b) t reached step (Reach-Inv b reliable reached)

  -- What is left of a handling that is at its end ensures its answer.
  finished :
      (t₀ t : Threads fs socket) (peer : socket.State) (request : Request) (response : Response)
      → IsHandled t₀ t (works peer request (pure response))
      → (e : Threads fs socket) × Arrival t₀ e t peer request
        × Answered fs t.cache request e.world.files response t.world.files
  unfolding IsHandled Ensures
  finished t₀ t peer request response (e, arrival, h) =
      (e, arrival, h t.world.files (Extends-refl t.cache t.world.files))

-- Over a file system without failures, at whatever point of its loop the broker is, and however the
-- accesses of its threads to files and console have followed one another: the cache is the one of the
-- metadata log as it was at the start; every file holds what it held at the start and perhaps more
-- behind that; and a file at a path that is not the log of a partition of the cache is as it was at
-- the start.
pub Reach-Extends_amid :
    {fs : FileSystem} (socket : Socket) (s : fs.State) (b₀ : Broker fs socket)
    (t : Threads fs socket)
    → IsReliable fs
    → start fs socket s ≡ ok b₀
    → Reach fs socket (at_heads fs socket b₀) (running t)
    → (metadata_of fs s ≡ ok t.cache) × Extends fs t.cache s t.world.files
unfolding IsStarted
Reach-Extends_amid {fs} socket s b₀ t reliable started reached =
    let (parsed, files) =
      Returns-elim (IsStarted s) (start fs socket s) b₀ (start-IsStarted fs socket s) started in
    let inv = Reach-Inv b₀ reliable reached in
    let from_start : Extends fs t.cache s t.world.files = rw (← files) inv.extended in
    (rw inv.same parsed, from_start)

-- Over a file system without failures, and however the accesses of the threads to files and console
-- have followed one another: a thread that is about to send a response had parsed its request at an
-- earlier point `e` of the run, the files of which have since been extended, and the response
-- answers that request. It refuses a version that is not supported; else it is the answer of
-- ApiVersions or DescribeTopicPartitions; or, for Fetch, it has for each partition the records of its
-- log as it was at one moment between `e` and now; or, for Produce, the records of each partition that
-- is answered without an error are in its log now, in one piece and behind what was there at `e`.
pub Reach-Answered :
    {fs : FileSystem} (socket : Socket) (b₀ : Broker fs socket) (t : Threads fs socket)
    (before behind : List (Thread fs socket)) (peer : socket.State) (request : Request)
    (response : Response)
    → IsReliable fs
    → Reach fs socket (at_heads fs socket b₀) (running t)
    → t.threads ≡ before ++ works peer request (pure response) ∷ behind
    → (e : Threads fs socket) × Arrival (at_heads fs socket b₀) e t peer request
      × Answered fs t.cache request e.world.files response t.world.files
Reach-Answered {fs} socket b₀ t before behind peer request response reliable reached there =
    let t₀ : Threads fs socket = at_heads fs socket b₀ in
    let (first, own, last) =
      All-split (IsHandled t₀ t) before (works peer request (pure response)) behind
        (subst (All (IsHandled t₀ t)) there (Reach-Inv b₀ reliable reached).handled) in
    finished t₀ t peer request response own
