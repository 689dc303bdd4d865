-- ===== src/Broker.antt =====
-- src/main.cpp: the start of the broker, and the clients that it serves side by side.
pub mod Later
pub mod Starts
pub mod Threads
use codecrafters_kafka_cpp.Common.{
  ◌≡◌, List, [], ◌∷◌, ◌++◌, Bool, true, false, Option, none, some, Bytes, Outcome, ok, throws,
  undefined, out_of_fuel, bind,
}
use codecrafters_kafka_cpp.Common.Text.{codes}
use codecrafters_kafka_cpp.Core.Hexdump.{dump_file}
use codecrafters_kafka_cpp.Metadata.Cache.{MetadataCache, num_of_topics}
use codecrafters_kafka_cpp.Metadata.Parser.{parse_log_file}
use codecrafters_kafka_cpp.Storage.FileSystem.{FileSystem}
use codecrafters_kafka_cpp.Storage.LogFiles.{buffer_of}
use codecrafters_kafka_cpp.Api.Handler.{
  Line, World, topics, dumped, waiting, connected, accept_error, print,
}
use codecrafters_kafka_cpp.Api.Router.{route, main_router}
use codecrafters_kafka_cpp.Api.ClientSession.{Socket, Session, session_round}

abbrev pub log_file_path : Bytes
log_file_path = codes "/tmp/kraft-combined-logs/__cluster_metadata-0/00000000000000000000.log"

-- The cache of the metadata log as the files have it.
unfoldable pub metadata_of : (fs : FileSystem) → fs.State → Outcome MetadataCache
metadata_of fs s = parse_log_file (buffer_of (fs.read_file log_file_path s))

-- The parser counts the topics, if it could read the file.
abbrev pub counted : Option Bytes → MetadataCache → List Line
counted none cache = []
counted (some buffer) cache = topics (num_of_topics cache) ∷ []

-- What `main` has before its loop: the cache that the controller holds, and the dump of the metadata
-- log, as it goes to the error stream.
unfoldable pub prepare : (fs : FileSystem) → fs.State → Outcome (MetadataCache × Bytes)
unfolding metadata_of
prepare fs s =
    bind (metadata_of fs s)
      λ cache. bind (dump_file fs log_file_path [] 16 s) λ shown. ok (cache, shown)

module _ (fs : FileSystem) (socket : Socket) where
  -- The broker in its loop: the files and the console that its sessions share, and the sockets of the
  -- clients that have a thread.
  pub record Broker : Type 0 where
    pub cache : MetadataCache
    pub world : World fs
    pub clients : List socket.State

  -- `ended` stands for what comes after an exception that leaves a thread, which ends the process, and
  -- after undefined behaviour or a round without an end, of which nothing is said.
  pub data Process : Type 0 where
    running : Broker → Process
    ended : Process

  -- `main` up to its loop.
  unfoldable pub start : fs.State → Outcome Broker
  unfolding prepare
  start s = bind (prepare fs s) λ (cache, shown). ok (record {
    cache = cache;
    world = record {
      files = s;
      console = counted (buffer_of (fs.read_file log_file_path s)) cache ++ dumped shown ∷ [];
    };
    clients = [];
  })

  -- The session of one client, with those before and behind it in the list, after a round: it goes on,
  -- or its thread is at its end.
  abbrev pub Round : MetadataCache → Type 0
  Round cache = Outcome (Bool × Session fs socket (route (main_router fs cache)))

  abbrev pub after_round :
      (b : Broker) → List socket.State → List socket.State → Round b.cache → Process
  after_round b before behind (ok (true, s)) =
      running (record b { world = s.world; clients = before ++ s.peer ∷ behind })
  after_round b before behind (ok (false, s)) =
      running (record b { world = s.world; clients = before ++ behind })
  after_round b before behind (throws e) = ended
  after_round b before behind undefined = ended
  after_round b before behind out_of_fuel = ended

  unfoldable pub serve :
      (b : Broker) → List socket.State → socket.State → List socket.State → Process
  serve b before peer behind = after_round b before behind (
      session_round fs socket (route (main_router fs b.cache))
        (record { world = b.world; peer = peer }))

  -- What happens next. A round of a session is one step: two sessions take turns after whole rounds, in
  -- any order.
  pub data Step (b : Broker) : Process → Type 0 where
    accepted :
        (peer : socket.State)
        → Step b (
            running (record b {
              world = print connected (print waiting b.world);
              clients = b.clients ++ peer ∷ [];
            }))
    accept_failed :
        Step b (running (record b { world = print accept_error (print waiting b.world) }))
    served :
        (before : List socket.State) (peer : socket.State) (behind : List socket.State)
        → b.clients ≡ before ++ peer ∷ behind
        → Step b (serve b before peer behind)

  pub data Reach (b₀ : Broker) : Process → Type 0 where
    here : Reach b₀ (running b₀)
    later : {b : Broker} {p : Process} → Reach b₀ (running b) → Step b p → Reach b₀ p
