-- ===== src/Broker/Starts.antt =====
-- The way of the broker into its loop.
use codecrafters_kafka_cpp.Common.{
  ◌^◌, ◌≤◌, ◌<◌, ◌≡◌, refl, List, [], ◌∷◌, ◌++◌, some, Bytes, IsByte, All, length, Outcome, ok,
  throws, undefined, out_of_fuel, arith,
}
use codecrafters_kafka_cpp.Common.Returns.{
  Returns, returned, threw, broke, ran_out, Returns-bind, Returns-bind_if,
}
use codecrafters_kafka_cpp.Core.Hexdump.{dump_file, inner_width}
use codecrafters_kafka_cpp.Core.Hexdump.Layout.{dump-line_widths}
use codecrafters_kafka_cpp.Storage.FileSystem.{FileSystem}
use codecrafters_kafka_cpp.Metadata.Cache.{MetadataCache, empty_cache, num_of_topics}
use codecrafters_kafka_cpp.Metadata.Parser.Batches.{
  RecordBatch, FitsRecordBatch, metadata_log, add_batches, parse_log_file-metadata_log,
}
use codecrafters_kafka_cpp.Api.Handler.{topics, dumped}
use codecrafters_kafka_cpp.Api.ClientSession.{Socket}
use codecrafters_kafka_cpp.Broker.{Broker, log_file_path, metadata_of, prepare, start}

Returns-itself : {A : Type 0} (m : Outcome A) → Returns (λ a. m ≡ ok a) m
Returns-itself (ok a) = returned a refl
Returns-itself (throws e) = threw e
Returns-itself undefined = broke
Returns-itself out_of_fuel = ran_out

-- What the broker starts with.
unfoldable pub IsStarted :
    {fs : FileSystem} {socket : Socket} → fs.State → Broker fs socket → Type 0
IsStarted {fs} s b = (metadata_of fs s ≡ ok b.cache) × (b.world.files ≡ s)

pub start-IsStarted :
    (fs : FileSystem) (socket : Socket) (s : fs.State)
    → Returns (IsStarted {fs = fs} {socket = socket} s) (start fs socket s)
unfolding start prepare IsStarted
start-IsStarted fs socket s =
    Returns-bind_if (λ ((cache, shown) : MetadataCache × Bytes). metadata_of fs s ≡ ok cache) _
      (prepare fs s) _
      (Returns-bind_if (λ (cache : MetadataCache). metadata_of fs s ≡ ok cache) _ (metadata_of fs s)
        _ (Returns-itself (metadata_of fs s))
        (λ cache e.
          Returns-bind _ (dump_file fs log_file_path [] 16 s) _
            (λ shown. returned (cache, shown) e)))
      (λ (cache, shown) e. returned _ (e, refl))

-- The dump of a file of fewer than 2 ^ 32 + 1 bytes under the path of the metadata log is written.
dump_file-written :
    (fs : FileSystem) (s : fs.State) (buffer : Bytes)
    → fs.read_file log_file_path s ≡ some (some buffer)
    → All IsByte buffer
    → length buffer ≤ 2 ^ 32
    → (out : Bytes) × (dump_file fs log_file_path [] 16 s ≡ ok out)
unfolding dump_file inner_width
dump_file-written fs s buffer found bytes size =
    let (out, rows, written, widths, enough, needed) =
      dump-line_widths buffer log_file_path 1 (omega arith) bytes size (omega arith)
        (omega arith) in
    (out, rw (found, dump_file) written)

-- Where the metadata log is a row of batches whose records fit, of at most 2 ^ 32 bytes, the broker
-- comes to its loop: it has parsed the log, the cache has the topics and partitions of the batches, the
-- number of its topics and the dump of the log have been printed, the files are as they were, and there
-- is no client.
pub start-metadata_log :
    (fs : FileSystem) (socket : Socket) (s : fs.State) (bs : List RecordBatch) (tail : Bytes)
    → fs.read_file log_file_path s ≡ some (some (metadata_log bs ++ tail))
    → All FitsRecordBatch bs
    → length tail < 12
    → All IsByte (metadata_log bs ++ tail)
    → length (metadata_log bs ++ tail) ≤ 2 ^ 32
    → (out : Bytes) × (dump_file fs log_file_path [] 16 s ≡ ok out)
      × (start fs socket s
          ≡ ok (record {
            cache = add_batches bs empty_cache;
            world = record {
              files = s;
              console = topics (num_of_topics (add_batches bs empty_cache)) ∷ dumped out ∷ [];
            };
            clients = [];
          }))
unfolding start prepare metadata_of
start-metadata_log fs socket s bs tail found fit short bytes size =
    let (out, written) = dump_file-written fs s (metadata_log bs ++ tail) found bytes size in
    (
      out,
      written,
      rw (found, parse_log_file-metadata_log bs tail fit short (omega (arith, size)), written) refl,
    )
