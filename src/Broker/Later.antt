-- ===== src/Broker/Later.antt =====
-- What holds of the broker however the rounds of its clients follow one another.
use codecrafters_kafka_cpp.Common.{◌≡◌, ok}
use codecrafters_kafka_cpp.Storage.FileSystem.{FileSystem}
use codecrafters_kafka_cpp.Storage.LogFiles.Append.{IsReliable}
use codecrafters_kafka_cpp.Api.Router.Extends.{Extends}
use codecrafters_kafka_cpp.Api.ClientSession.{Socket}
use codecrafters_kafka_cpp.Broker.{metadata_of, Broker, running, start, Reach}
use codecrafters_kafka_cpp.Broker.Threads.{at_heads}
use codecrafters_kafka_cpp.Broker.Threads.Rounds.{Reach-in_threads}
use codecrafters_kafka_cpp.Broker.Threads.Invariant.{Reach-Extends_amid}

-- Over a file system without failures, at whatever point of its loop the broker is, whatever clients
-- have come and sent and in whatever order whole rounds of their sessions have followed one another:
-- the cache is the one of the metadata log as it was at the start; every file holds what it held at
-- the start and perhaps more behind that; and a file at a path that is not the log of a partition of
-- the cache is as it was at the start.
pub Reach-Extends :
    {fs : FileSystem} (socket : Socket) (s : fs.State) (b₀ b : Broker fs socket)
    → IsReliable fs
    → start fs socket s ≡ ok b₀
    → Reach fs socket b₀ (running b)
    → (metadata_of fs s ≡ ok b.cache) × Extends fs b.cache s b.world.files
Reach-Extends socket s b₀ b reliable started reached =
    Reach-Extends_amid socket s b₀ (at_heads _ socket b) reliable started
      (Reach-in_threads b₀ reached)
