-- ===== src/Api/ClientSession/EndToEnd.antt =====
-- A client that produces and then fetches, over the whole broker: the frames that it sends and the
-- frames that it gets.
use codecrafters_kafka_cpp.Common.{
  ℕ, ◌^◌, ◌<◌, ◌≡◌, refl, ap, sym, ◌∙◌, List, [], ◌∷◌, ◌++◌, All, length, some, Bytes, ok,
}
use codecrafters_kafka_cpp.Metadata.Topic.{TopicRecord}
use codecrafters_kafka_cpp.Metadata.Cache.{MetadataCache, get_topic_by_id, get_partitions}
use codecrafters_kafka_cpp.Metadata.Cache.Laws.{IsConsistent, get_topic_by_id-found}
use codecrafters_kafka_cpp.Storage.FileSystem.{FileSystem}
use codecrafters_kafka_cpp.Storage.LogFiles.Append.{IsReliable, log_content}
use codecrafters_kafka_cpp.Storage.LogParser.Batches.{Batch, IsBatch, log_of}
use codecrafters_kafka_cpp.Storage.LogParser.Extract.{from_offset}
use codecrafters_kafka_cpp.Api.Handler.{World, disconnected, response_sent, print}
use codecrafters_kafka_cpp.Api.Controller.Produce.{Lists}
use codecrafters_kafka_cpp.Api.Controller.Visible.{log_of-append}
use codecrafters_kafka_cpp.Api.Router.{route, main_router}
use codecrafters_kafka_cpp.Api.ClientSession.{Socket, Session, handle_connection}
use codecrafters_kafka_cpp.Api.ClientSession.Rounds.{Exchange, handle_connection-Conversation}
use codecrafters_kafka_cpp.Api.ClientSession.Offers.{Offers, Offers-Conversation}
use codecrafters_kafka_cpp.Api.ClientSession.Asks.{AsksToProduce, AsksToFetch, produces, fetches}

module _ {fs : FileSystem} (reliable : IsReliable fs) (cache : MetadataCache) where
  -- Over a file system without failures and a consistent cache: a client sends the frame of a Produce of
  -- a row of batches for a partition that the cache has and whose log is a row of batches, then the frame
  -- of a Fetch of that partition, and leaves. Each frame fits its fields. The session over the pipeline
  -- of `main` then comes to its end with the socket at the point where two frames have gone out: that of
  -- a Produce response without an error, and that of a Fetch response with the batches from the offset
  -- asked for on, of those that were in the log and then those that were sent. The files are then such
  -- that the log has the batches sent behind those that it had.
  pub handle_connection-Offers :
      (socket : Socket) (e₁ e₂ : Exchange) (topic : TopicRecord) (id : Bytes) (index offset : ℕ)
      (bs cs : List Batch) (s : Session fs socket (route (main_router fs cache)))
      (gone : socket.State) (fuel : ℕ)
      → IsConsistent cache
      → get_topic_by_id id cache ≡ some topic
      → Lists index (get_partitions topic.topic_id cache)
      → log_content fs topic.name index s.world.files ≡ log_of bs
      → All IsBatch (bs ++ cs)
      → length (log_of (bs ++ cs)) < 2 ^ 63
      → AsksToProduce e₁ topic.name index (log_of cs)
      → AsksToFetch e₂ id index offset (log_of (from_offset offset (bs ++ cs)))
      → Offers socket (e₁ ∷ e₂ ∷ []) s.peer gone
      → 2 < fuel
      → (w : World fs) × (handle_connection fs socket (route (main_router fs cache)) fuel s
          ≡ ok (record { world = w; peer = gone }))
        × (log_content fs topic.name index w.files ≡ log_of (bs ++ cs))
  unfolding print
  handle_connection-Offers socket e₁ e₂ topic id index offset bs cs s gone fuel consistent found
        listed held h small asks₁ asks₂ (fits₁, (a, b, c, sized₁, came₁, sent₁, rest)) enough =
      let (fits₂, more) = rest in
      let (has_id, named) = get_topic_by_id-found id cache topic consistent found in
      let (v, answered₁, grown) =
        produces reliable cache e₁ topic.name index (log_of cs) s.world fits₁ asks₁
          (topic, named, listed) in
      let whole : log_content fs topic.name index v.files ≡ log_of (bs ++ cs) =
        grown ∙ ap (λ (t : Bytes). t ++ log_of cs) held ∙ sym (log_of-append bs cs) in
      let (w, answered₂, same) =
        fetches cache e₂ id topic index offset (bs ++ cs) (print response_sent v) fits₂ asks₂ found
          whole h small in
      (
        print disconnected (print response_sent w),
        handle_connection-Conversation fs socket (route (main_router fs cache)) (e₁ ∷ e₂ ∷ []) s
            (record { world = print disconnected (print response_sent w); peer = gone }) fuel
            (Offers-Conversation fs socket (route (main_router fs cache)) (e₁ ∷ e₂ ∷ []) s.peer gone
              s.world (print disconnected (print response_sent w))
              (fits₁, (a, b, c, sized₁, came₁, sent₁, rest)) (v, answered₁, (w, answered₂, refl)))
            enough,
        ap (λ (t : fs.State). log_content fs topic.name index t) same ∙ whole,
      )
