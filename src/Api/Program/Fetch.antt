-- ===== src/Api/Program/Fetch.antt =====
-- Fetch while other threads extend the files.
use codecrafters_kafka_cpp.Common.{ℕ, ◌≡◌, refl, inl, inr, [], ◌∷◌, Option-cases, Bytes, ok}
use codecrafters_kafka_cpp.Metadata.Topic.{TopicRecord}
use codecrafters_kafka_cpp.Metadata.Cache.{MetadataCache, get_topic_by_id}
use codecrafters_kafka_cpp.Storage.FileSystem.{FileSystem}
use codecrafters_kafka_cpp.Storage.LogFiles as Files
use codecrafters_kafka_cpp.Storage.LogFiles.{dir_path, file_path, buffer_of}
use codecrafters_kafka_cpp.Api.Registry.{fetch}
use codecrafters_kafka_cpp.Api.Dto.Fetch.{
  FetchPartitionRequest, FetchTopicRequest, FetchTopicResponse, deserialize_fetch,
}
use codecrafters_kafka_cpp.Api.Dto.Request.{Request}
use codecrafters_kafka_cpp.Api.Controller.{parse_body, fetched, extract_from}
use codecrafters_kafka_cpp.Api.Router.Extends.{Extends, Extends-trans}
use codecrafters_kafka_cpp.Api.Program.{returns, for_each}
use codecrafters_kafka_cpp.Api.Program.Controller.{
  read_log_file, fetch_partition, fetch_partitions, fetch_topic, handle_fetch_partitions,
}
use codecrafters_kafka_cpp.Api.Program.Ensures.{Ensures}
use codecrafters_kafka_cpp.Api.Program.Answers.{Follows, FetchesAmid, FetchesTopicAmid, Answers}
use codecrafters_kafka_cpp.Api.Program.Rules.{
  Ensured, step, ended, lifted, Follows-Extends, for_each-Follows,
}

module _ (fs : FileSystem) (cache : MetadataCache) (F : Type 0) (x : F) where
  -- What a read finds: the file at one moment.
  read_log_file-Amid :
      (name : Bytes) (index : ℕ) (s : fs.State)
      → Ensured fs cache F
          (read_log_file name index)
          (λ log_bytes t.
            (u : fs.State) × Extends fs cache s u
            × Extends fs cache u t
            × (log_bytes ≡ Files.read_log_file fs name index u))
          s
  unfolding read_log_file Files.read_log_file Ensures
  read_log_file-Amid name index s = λ u moved t moved'. (u, moved, moved', refl)

  fetch_partition-Amid :
      (topic : TopicRecord) (req : FetchPartitionRequest) (s : fs.State)
      → Ensured fs cache F (fetch_partition topic req) (FetchesAmid fs cache topic req s) s
  unfolding fetch_partition
  fetch_partition-Amid topic req s =
      let P = FetchesAmid fs cache topic req s in
      step fs cache F _ P (read_log_file topic.name req.index) _ s
        (read_log_file-Amid topic.name req.index s)
        (λ log_bytes t (u, before, behind, found).
          step fs cache F
            (λ records v.
              (extract_from log_bytes req.fetch_offset ≡ ok records) × Extends fs cache t v)
            P (returns (extract_from log_bytes req.fetch_offset)) _ t
            (lifted fs cache F _ (extract_from log_bytes req.fetch_offset) t x
              (λ records v e moved. (e, moved)))
            (λ records v (e, moved).
              ended fs cache F P (fetched req.index 0 records) v (λ v' moved'. (
                u,
                records,
                before,
                Extends-trans cache u t v' behind (Extends-trans cache t v v' moved moved'),
                rw found at e,
                refl,
              ))))

  fetch_topic-Amid :
      (req : FetchTopicRequest) (s : fs.State)
      → Ensured fs cache F (fetch_topic cache req) (FetchesTopicAmid fs cache req s) s
  unfolding fetch_topic fetch_partitions
  fetch_topic-Amid req s = elim (Option-cases (get_topic_by_id req.topic_id cache)) [
    | inl missing ↦ rw missing (
        ended fs cache F P (record { topic_id = req.topic_id; partitions = fetched 0 100 [] ∷ [] })
          s (λ t moved. (refl, inr (missing, refl, moved))))
    | inr (topic, found) ↦ rw found (
        step fs cache F (Follows fs cache (FetchesAmid fs cache topic) req.partitions s) P
          (for_each (fetch_partition topic) req.partitions) _ s
          (for_each-Follows fs cache F (FetchesAmid fs cache topic) (fetch_partition topic)
            (fetch_partition-Amid topic) req.partitions s)
          (λ ps t done.
            ended fs cache F P (record { topic_id = req.topic_id; partitions = ps }) t
              (λ u moved. (
                refl,
                inl (
                  topic,
                  found,
                  Follows-Extends fs cache (FetchesAmid fs cache topic) req.partitions ps s t u done
                      moved,
                ),
              ))))
  ]
    where
      P : FetchTopicResponse → fs.State → Type 0
      P = FetchesTopicAmid fs cache req s

  pub handle_fetch_partitions-Answers :
      (request : Request) (s : fs.State)
      → Ensured fs cache F
          (handle_fetch_partitions cache request)
          (Answers fs cache fetch request s)
          s
  unfolding handle_fetch_partitions
  handle_fetch_partitions-Answers request s =
      step fs cache F
        (λ req t. (parse_body deserialize_fetch request.body ≡ ok req) × Extends fs cache s t)
        (Answers fs cache fetch request s) (returns (parse_body deserialize_fetch request.body)) _ s
        (lifted fs cache F _ (parse_body deserialize_fetch request.body) s x
          (λ req t e moved. (e, moved)))
        (λ req t (parsed, moved).
          step fs cache F (Follows fs cache (FetchesTopicAmid fs cache) req.topics t)
            (Answers fs cache fetch request s) (for_each (fetch_topic cache) req.topics) _ t
            (for_each-Follows fs cache F (FetchesTopicAmid fs cache) (fetch_topic cache)
              fetch_topic-Amid req.topics t)
            (λ responses u done.
              ended fs cache F (Answers fs cache fetch request s) _ u (λ v moved'. (
                req,
                responses,
                parsed,
                refl,
                (
                  t,
                  moved,
                  Follows-Extends fs cache (FetchesTopicAmid fs cache) req.topics responses t u v
                      done moved',
                ),
              ))))
