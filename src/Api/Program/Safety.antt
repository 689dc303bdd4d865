-- ===== src/Api/Program/Safety.antt =====
-- The whole handling of a request while other threads extend the files.
use codecrafters_kafka_cpp.Common.{refl, inl, inr, [], ◌∷◌, Bool-cases, Bytes}
use codecrafters_kafka_cpp.Metadata.Cache.{MetadataCache}
use codecrafters_kafka_cpp.Storage.FileSystem.{FileSystem}
use codecrafters_kafka_cpp.Storage.LogFiles.Append.{IsReliable}
use codecrafters_kafka_cpp.Api.Registry.{
  ApiKey, produce, fetch, api_versions, describe_topic_partitions, other,
}
use codecrafters_kafka_cpp.Api.Dto.ApiVersions.{is_supported_version}
use codecrafters_kafka_cpp.Api.Dto.Request.{Request}
use codecrafters_kafka_cpp.Api.Dto.Response.{Response}
use codecrafters_kafka_cpp.Api.Controller.{handle_describe_topic_partitions}
use codecrafters_kafka_cpp.Api.Middleware.{rejection}
use codecrafters_kafka_cpp.Api.Router.Extends.{Extends}
use codecrafters_kafka_cpp.Api.Program.{Program}
use codecrafters_kafka_cpp.Api.Program.Controller.{dispatch}
use codecrafters_kafka_cpp.Api.Program.Pipeline.{
  version_validator, dump_body, log_response, logging, route_main,
}
use codecrafters_kafka_cpp.Api.Program.Ensures.{Ensures, Ensures-imp}
use codecrafters_kafka_cpp.Api.Program.Answers.{
  FetchesTopicAmid, ProducesTopicAmid, Answers, Answered,
}
use codecrafters_kafka_cpp.Api.Program.Rules.{Ensured, step, ended, lifted, Follows-Extends}
use codecrafters_kafka_cpp.Api.Program.Fetch.{handle_fetch_partitions-Answers}
use codecrafters_kafka_cpp.Api.Program.Produce.{handle_produce-Answers}

module _ {fs : FileSystem} (reliable : IsReliable fs) (cache : MetadataCache) where
  dispatch-Answers :
      (key : ApiKey) (request : Request) (s : fs.State)
      → Ensured fs cache (Unit {0}) (dispatch cache key request) (Answers fs cache key request s) s
  unfolding dispatch
  dispatch-Answers api_versions request s = ended fs cache _ _ _ s (λ t moved. refl)
  dispatch-Answers describe_topic_partitions request s =
      lifted fs cache _ _ (handle_describe_topic_partitions cache request) s tt (λ r t e moved. e)
  dispatch-Answers fetch request s = handle_fetch_partitions-Answers fs cache _ tt request s
  dispatch-Answers produce request s = handle_produce-Answers reliable cache _ request s tt
  dispatch-Answers (other raw) request s = unfold Ensures in λ t moved. tt

  dump_body-Ensured :
      (P : Response → fs.State → Type 0) (body : Bytes) (p : Program Response) (s : fs.State)
      → Ensured fs cache (Unit {0}) p P s
      → Ensured fs cache (Unit {0}) (dump_body body p) P s
  unfolding dump_body Ensures
  dump_body-Ensured P [] p s e = e
  dump_body-Ensured P (b ∷ bs) p s e = e

  Answers-Extends :
      (key : ApiKey) (request : Request) (s t u : fs.State) (r : Response)
      → Answers fs cache key request s r t
      → Extends fs cache t u
      → Answers fs cache key request s r u
  Answers-Extends api_versions request s t u r h moved = h
  Answers-Extends describe_topic_partitions request s t u r h moved = h
  Answers-Extends fetch request s t u r (req, responses, parsed, e, (v, until, h)) moved = (
    req,
    responses,
    parsed,
    e,
    (
      v,
      until,
      Follows-Extends fs cache (FetchesTopicAmid fs cache) req.topics responses v t u h moved,
    ),
  )
  Answers-Extends produce request s t u r (req, responses, parsed, e, (v, until, h)) moved = (
    req,
    responses,
    parsed,
    e,
    (
      v,
      until,
      Follows-Extends fs cache (ProducesTopicAmid fs cache) req.topics responses v t u h moved,
    ),
  )
  Answers-Extends (other raw) request s t u r h moved = h

  logging-Answers :
      (request : Request) (s : fs.State)
      → Ensured fs cache
          (Unit {0})
          (logging request (λ r. dispatch cache r.header.api r))
          (Answers fs cache request.header.api request s)
          s
  unfolding logging log_response Ensures
  logging-Answers request s =
      let key = request.header.api in
      dump_body-Ensured (Answers fs cache key request s) request.body _ s (
        step fs cache _ (Answers fs cache key request s) (Answers fs cache key request s)
          (dispatch cache key request) _ s (dispatch-Answers key request s)
          (λ r t h u moved. Answers-Extends key request s t u r h moved))

  -- Over a file system without failures, and however other threads extend the files between the
  -- operations of the pipeline: an answer that it comes to is the refusal of a version that is not
  -- supported, or it is what the controller has to answer to the request. Fetch answers for each
  -- partition the records of its log as it was at one moment since the request came in, and Produce has
  -- put the records of each partition that it accepts into the log in one piece, behind what was there
  -- as the request came in.
  pub route_main-Answered :
      (request : Request) (s : fs.State)
      → Ensured fs cache (Unit {0}) (route_main cache request) (Answered fs cache request s) s
  unfolding route_main version_validator Answered Ensures
  route_main-Answered request s =
      elim (Bool-cases (is_supported_version request.header.api request.header.version)) [
        | inl supported ↦ rw supported (
            Ensures-imp fs (Extends fs cache) (Unit {0})
              (Answers fs cache request.header.api request s) (Answered fs cache request s)
              (logging request (λ r. dispatch cache r.header.api r)) s (λ r t h. inl (supported, h))
              (logging-Answers request s))
        | inr unsupported ↦ rw unsupported (
            lifted fs cache _ (Answered fs cache request s)
              (rejection request.header.api request.header.correlation_id) s tt
              (λ r t e moved. inr (unsupported, e)))
      ]
