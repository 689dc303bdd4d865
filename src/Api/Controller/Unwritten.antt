-- ===== src/Api/Controller/Unwritten.antt =====
-- What Produce answers when a log cannot be opened or written.
use codecrafters_kafka_cpp.Common.{
  ℕ, ◌≡◌, refl, [], ◌∷◌, Bool, true, false, Option, none, some, Bytes, Outcome, ok,
}
use codecrafters_kafka_cpp.Metadata.Topic.{TopicRecord}
use codecrafters_kafka_cpp.Metadata.Cache.{MetadataCache, get_topic_by_name, get_partitions}
use codecrafters_kafka_cpp.Storage.FileSystem.{FileSystem}
use codecrafters_kafka_cpp.Storage.LogFiles.{file_path, dir_path, append_to_log}
use codecrafters_kafka_cpp.Api.Dto.Produce.{ProduceRequest, deserialize_produce}
use codecrafters_kafka_cpp.Api.Dto.Request.{Request}
use codecrafters_kafka_cpp.Api.Handler.{World, for_each}
use codecrafters_kafka_cpp.Api.Controller.{
  parse_body, has_partition, append_records, produce_partition, produce_topic, handle_produce,
}
use codecrafters_kafka_cpp.Api.Controller.Visible.{accepted_response}

-- An append that goes wrong in the files `s` and leaves `t`: the file cannot be opened, or is not good
-- after the write.
abbrev pub Fails : {S : Type 0} → Option (Bool × S) → S → S → Type 0
Fails none s t = t ≡ s
Fails (some (true, u)) s t = ⊥
Fails (some (false, u)) s t = t ≡ u

module _ (fs : FileSystem) (cache : MetadataCache) where
  append_to_log-Fails :
      (name : Bytes) (index b : ℕ) (bs : Bytes) (r s t : fs.State)
      → fs.create_directories (dir_path name index) r ≡ ok s
      → Fails (fs.append_file (file_path name index) (b ∷ bs) s) s t
      → append_to_log fs name index (b ∷ bs) r ≡ ok (false, t)
  unfolding append_to_log
  append_to_log-Fails name index b bs r s t made h =
      rw made (came_to (fs.append_file (file_path name index) (b ∷ bs) s) h)
    where
      came_to :
          (x : Option (Bool × fs.State))
          → Fails x s t
          → ◌≡◌ {A = Outcome (Bool × fs.State)}
              (elim x [ none ↦ ok (false, s) | some (good, u) ↦ ok (good, u) ])
              (ok (false, t))
      came_to none h = rw h refl
      came_to (some (true, u)) h = elim h [ ]
      came_to (some (false, u)) h = rw h refl

  -- A Produce of some records for one partition that the cache has, whose directory is made but whose
  -- log cannot be opened, or is not good after the write: the answer is without an error all the same,
  -- and the files are those that the append has left.
  pub handle_produce-unwritten :
      (request : Request) (preq : ProduceRequest) (topic : TopicRecord) (name : Bytes) (index b : ℕ)
      (bs : Bytes) (w : World fs) (s t : fs.State)
      → parse_body deserialize_produce request.body ≡ ok preq
      → preq.topics
        ≡ record {
          name = name;
          partitions = record { index = index; records = some (b ∷ bs) } ∷ [];
        }
          ∷ []
      → get_topic_by_name name cache ≡ some topic
      → has_partition index (get_partitions topic.topic_id cache) ≡ true
      → fs.create_directories (dir_path name index) w.files ≡ ok s
      → Fails (fs.append_file (file_path name index) (b ∷ bs) s) s t
      → handle_produce fs cache request w
        ≡ ok (accepted_response request name index, record w { files = t })
  unfolding handle_produce produce_topic produce_partition append_records for_each
  handle_produce-unwritten request preq topic name index b bs w s t parsed shape found listed made
        fails =
      rw (parsed, shape, found, listed, append_to_log-Fails name index b bs w.files s t made fails)
