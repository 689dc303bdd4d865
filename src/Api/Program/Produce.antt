-- ===== src/Api/Program/Produce.antt =====
-- Produce while other threads extend the files.
use codecrafters_kafka_cpp.Common.{
  ℕ, ◌≡◌, refl, sym, ap, ◌∙◌, inl, inr, [], ◌∷◌, ◌++◌, append_assoc, append-nil, Bool-cases, Option,
  Option-cases, none, some, Bytes, ok,
}
use codecrafters_kafka_cpp.Metadata.Cache.{MetadataCache, get_topic_by_name, get_partitions}
use codecrafters_kafka_cpp.Storage.FileSystem.{FileSystem}
use codecrafters_kafka_cpp.Storage.LogFiles.{dir_path, file_path}
use codecrafters_kafka_cpp.Storage.LogFiles.Append.{IsReliable, log_content}
use codecrafters_kafka_cpp.Api.Registry.{produce}
use codecrafters_kafka_cpp.Api.Dto.Produce.{
  ProducePartitionRequest, ProduceTopicRequest, ProducePartitionResponse, ProduceRequest,
  deserialize_produce,
}
use codecrafters_kafka_cpp.Api.Dto.Request.{Request}
use codecrafters_kafka_cpp.Api.Dto.Response
use codecrafters_kafka_cpp.Api.Dto.Response.{Response}
use codecrafters_kafka_cpp.Api.Controller.{parse_body, respond, has_partition, produced, rejected}
use codecrafters_kafka_cpp.Api.Controller.Produce.{
  Knows, records_of, has_partition→Lists, Misses-topic, Misses-partition,
}
use codecrafters_kafka_cpp.Api.Router.Extends.{
  Extends, Extends-refl, Extends-trans, made-Extends, appended-Extends,
}
use codecrafters_kafka_cpp.Api.Program.{returns, ◌>>=◌, pure, for_each}
use codecrafters_kafka_cpp.Api.Program.Controller.{
  append_to_log, append_records, produce_partition, produce_topic, handle_produce,
}
use codecrafters_kafka_cpp.Api.Program.Ensures.{Ensures}
use codecrafters_kafka_cpp.Api.Program.Answers.{
  Follows, Written, ProducesAmid, ProducesTopicAmid, Answers,
}
use codecrafters_kafka_cpp.Api.Program.Rules.{
  Ensured, step, ended, lifted, Follows-Extends, for_each-Follows,
}

module _ {fs : FileSystem} (reliable : IsReliable fs) (cache : MetadataCache) (F : Type 0) where
  log_grows :
      (name : Bytes) (index : ℕ) (s t : fs.State)
      → Extends fs cache s t
      → (added : Bytes) × (log_content fs name index t ≡ log_content fs name index s ++ added)
  log_grows name index s t h = h.grown (file_path name index)

  -- The steps of an append, others between them: `s` to `u` the others and the directory, `u` to `v`
  -- the bytes, `v` to `t` the others.
  Written-between :
      (name : Bytes) (index : ℕ) (records : Bytes) (s u v t : fs.State)
      → Extends fs cache s u
      → log_content fs name index v ≡ log_content fs name index u ++ records
      → Extends fs cache v t
      → Written fs cache name index records s t
  Written-between name index records s u v t h e k =
      let (before, first) = log_grows name index s u h in
      let (behind, last) = log_grows name index v t k in
      (
        before,
        behind,
        last
            ∙ ap (λ (b : Bytes). b ++ behind) (e ∙ ap (λ (b : Bytes). b ++ records) first)
            ∙ append_assoc (log_content fs name index s ++ before) records behind,
      )

  append_to_log-Written :
      (name : Bytes) (index : ℕ) (records : Bytes) (s : fs.State)
      → Knows cache name index
      → Ensured fs cache F
          (append_to_log name index records)
          (λ good t. Extends fs cache s t × Written fs cache name index records s t)
          s
  unfolding append_to_log Ensures
  append_to_log-Written name index [] s known = λ t moved. (
    moved,
    Written-between name index [] s s s t (Extends-refl cache s) (sym (append-nil _)) moved,
  )
  append_to_log-Written name index (b ∷ bs) s known = λ t moved.
      let (u, made, same) = reliable.made (dir_path name index) t in
      rw made (
        made-Extends cache t u same,
        λ v moved'.
            let (x, written, here, elsewhere) =
              reliable.appended (file_path name index) (b ∷ bs) v in
            let appended = appended-Extends cache name index (b ∷ bs) v x known here elsewhere in
            let until : Extends fs cache s v =
              Extends-trans cache s t v moved
                (Extends-trans cache t u v (made-Extends cache t u same) moved') in
            rw written (
              appended,
              λ y moved''. (
                Extends-trans cache s v y until (Extends-trans cache v x y appended moved''),
                Written-between name index (b ∷ bs) s v x y until (rw here) moved'',
              ),
            ),
      )

  Written-later :
      (name : Bytes) (index : ℕ) (records : Bytes) (s t u : fs.State)
      → Extends fs cache s t × Written fs cache name index records s t
      → Extends fs cache t u
      → Extends fs cache s u × Written fs cache name index records s u
  Written-later name index records s t u (until, (before, behind, e)) moved =
      let (more, e') = log_grows name index t u moved in
      (
        Extends-trans cache s t u until moved,
        (
          before,
          behind ++ more,
          e'
              ∙ ap (λ (b : Bytes). b ++ more) e
              ∙ append_assoc (log_content fs name index s ++ before) (records ++ behind) more
              ∙ ap (λ (b : Bytes). (log_content fs name index s ++ before) ++ b)
                  (append_assoc records behind more),
        ),
      )

  append_records-Written :
      (name : Bytes) (index : ℕ) (records : Option Bytes) (s : fs.State)
      → Knows cache name index
      → Ensured fs cache F
          (append_records name index records)
          (λ u t. Extends fs cache s t × Written fs cache name index (records_of records) s t)
          s
  unfolding append_records
  append_records-Written name index none s known = ended fs cache F _ tt s (λ t moved. (
    moved,
    Written-between name index [] s s s t (Extends-refl cache s) (sym (append-nil _)) moved,
  ))
  append_records-Written name index (some records) s known =
      step fs cache F _ _ (append_to_log name index records) _ s
        (append_to_log-Written name index records s known)
        (λ good t done.
          ended fs cache F _ tt t (λ u moved. Written-later name index records s t u done moved))

  produce_partition-Amid :
      (name : Bytes) (req : ProducePartitionRequest) (s : fs.State)
      → Ensured fs cache F
          (produce_partition cache name (get_topic_by_name name cache) req)
          (ProducesAmid fs cache name req s)
          s
  unfolding produce_partition
  produce_partition-Amid name req s = elim (Option-cases (get_topic_by_name name cache)) [
    | inl missing ↦ rw missing (
        ended fs cache F P (rejected req.index) s
          (λ t moved. (moved, inr (Misses-topic cache name req.index missing, refl))))
    | inr (topic, found) ↦
        elim (Bool-cases (has_partition req.index (get_partitions topic.topic_id cache))) [
          | inl listed ↦
              let known : Knows cache name req.index =
                (topic, found, has_partition→Lists req.index _ listed) in
              rw (found, listed)
                (step fs cache F _ P (append_records name req.index req.records) _ s
                  (append_records-Written name req.index req.records s known)
                  (λ u t done. ended fs cache F P (produced req.index 0 0 0) t (λ v moved.
                    let (until, written) =
                      Written-later name req.index (records_of req.records) s t v done moved in
                    (until, inl (known, refl, written)))))
          | inr unlisted ↦
              rw (found, unlisted)
                (ended fs cache F P (rejected req.index) s (λ t moved.
                  (moved, inr (Misses-partition cache name req.index topic found unlisted, refl))))
        ]
  ]
    where
      P : ProducePartitionResponse → fs.State → Type 0
      P = ProducesAmid fs cache name req s

  produce_topic-Amid :
      (req : ProduceTopicRequest) (s : fs.State)
      → Ensured fs cache F (produce_topic cache req) (ProducesTopicAmid fs cache req s) s
  unfolding produce_topic
  produce_topic-Amid req s =
      step fs cache F (Follows fs cache (ProducesAmid fs cache req.name) req.partitions s)
        (ProducesTopicAmid fs cache req s)
        (for_each (produce_partition cache req.name (get_topic_by_name req.name cache))
          req.partitions)
        _ s
        (for_each-Follows fs cache F (ProducesAmid fs cache req.name) _
          (produce_partition-Amid req.name) req.partitions s)
        (λ ps t done. ended fs cache F (ProducesTopicAmid fs cache req s) _ t (λ u moved. (
          refl,
          Follows-Extends fs cache (ProducesAmid fs cache req.name) req.partitions ps s t u done
              moved,
        )))

  -- The loop over the topics of a body that is parsed.
  answer_topics-Answers :
      (request : Request) (req : ProduceRequest) (s t : fs.State)
      → parse_body deserialize_produce request.body ≡ ok req
      → Extends fs cache s t
      → Ensured fs cache F
          (for_each (produce_topic cache) req.topics >>= λ responses. pure (
            respond request (
              Response.ResponseBody.produce
                (record { responses = responses; throttle_time_ms = 0 }))))
          (Answers fs cache produce request s)
          t
  answer_topics-Answers request req s t parsed moved =
      step fs cache F (Follows fs cache (ProducesTopicAmid fs cache) req.topics t)
        (Answers fs cache produce request s) (for_each (produce_topic cache) req.topics) _ t
        (for_each-Follows fs cache F (ProducesTopicAmid fs cache) (produce_topic cache)
          produce_topic-Amid req.topics t)
        (λ responses u done. ended fs cache F (Answers fs cache produce request s) _ u (λ v moved'.
          (
            req,
            responses,
            parsed,
            refl,
            (
              t,
              moved,
              Follows-Extends fs cache (ProducesTopicAmid fs cache) req.topics responses t u v done
                  moved',
            ),
          )))

  pub handle_produce-Answers :
      (request : Request) (s : fs.State)
      → F
      → Ensured fs cache F (handle_produce cache request) (Answers fs cache produce request s) s
  unfolding handle_produce
  handle_produce-Answers request s x =
      step fs cache F
        (λ req t. (parse_body deserialize_produce request.body ≡ ok req) × Extends fs cache s t)
        (Answers fs cache produce request s) (returns (parse_body deserialize_produce request.body))
        _ s
        (lifted fs cache F _ (parse_body deserialize_produce request.body) s x
          (λ req t e moved. (e, moved)))
        (λ req t (parsed, moved). answer_topics-Answers request req s t parsed moved)

-- Over a file system without failures, and however other threads extend the files between the
-- operations of the handler, a Produce whose body is read as `req` comes to an answer and does not
-- fail. The answer has one response for each topic and each of its partitions, in their order. The
-- records of a partition that the cache has are then in its log in one piece, behind what was there,
-- perhaps with bytes of others before and behind them, and its response has no error; one that the
-- cache does not have is answered with error 3. The operations of the handler extend the files
-- themselves: they lose nothing that others have written.
pub handle_produce-Amid :
    {fs : FileSystem} (reliable : IsReliable fs) (cache : MetadataCache) (request : Request)
    (req : ProduceRequest) (s : fs.State)
    → parse_body deserialize_produce request.body ≡ ok req
    → Ensured fs cache ⊥ (handle_produce cache request) (Answers fs cache produce request s) s
unfolding handle_produce ◌>>=◌
handle_produce-Amid reliable cache request req s parsed =
    rw parsed (answer_topics-Answers reliable cache ⊥ request req s s parsed (Extends-refl cache s))
