-- ===== src/Api/ClientSession/Asks.antt =====
-- A request for one partition over the pipeline of `main`: a Produce and a Fetch.
use codecrafters_kafka_cpp.Common.{
  ℕ, ◌^◌, ◌<◌, ◌≡◌, ap, sym, ◌∙◌, List, [], ◌∷◌, ◌++◌, All, length, length-append, true, some,
  Bytes, Outcome, ok, arith,
}
use codecrafters_kafka_cpp.Metadata.Topic.{TopicRecord}
use codecrafters_kafka_cpp.Metadata.Cache.{MetadataCache, get_topic_by_id}
use codecrafters_kafka_cpp.Storage.FileSystem.{FileSystem}
use codecrafters_kafka_cpp.Storage.LogFiles.Append.{IsReliable, log_content}
use codecrafters_kafka_cpp.Storage.LogParser.Batches.{Batch, IsBatch, log_of}
use codecrafters_kafka_cpp.Storage.LogParser.Extract.{from_offset}
use codecrafters_kafka_cpp.Api.Registry.{ApiKey, produce, fetch}
use codecrafters_kafka_cpp.Api.Dto.ApiVersions.{is_supported_version}
use codecrafters_kafka_cpp.Api.Dto.Fetch.{FetchPartitionRequest, FetchRequest, deserialize_fetch}
use codecrafters_kafka_cpp.Api.Dto.Fetch.Decode.{fetch_bytes, FitsFetch, Decodes-fetch}
use codecrafters_kafka_cpp.Api.Dto.Produce.{ProduceRequest, deserialize_produce}
use codecrafters_kafka_cpp.Api.Dto.Produce.Decode.{produce_bytes, FitsProduce, Decodes-produce}
use codecrafters_kafka_cpp.Api.Dto.Request.Decode.{header_bytes}
use codecrafters_kafka_cpp.Api.Dto.Response.{Response}
use codecrafters_kafka_cpp.Api.Handler.{World}
use codecrafters_kafka_cpp.Api.Controller.{parse_body, dispatch}
use codecrafters_kafka_cpp.Api.Controller.Produce.{Knows}
use codecrafters_kafka_cpp.Api.Controller.Visible.{
  records_response, accepted_response, handle_produce-one, handle_fetch_partitions-one,
}
use codecrafters_kafka_cpp.Api.Router.{route, main_router}
use codecrafters_kafka_cpp.Api.Router.Answers.{parse_body-layout, main_router-answers}
use codecrafters_kafka_cpp.Api.ClientSession.Rounds.{Exchange, request_of, FitsExchange}

-- The layout of a body is not longer than the request that it stands in.
body_size : (e : Exchange) → FitsExchange e → length e.body < 2 ^ 64
body_size e fits =
    omega (arith, fits.request, length-append (header_bytes e.header e.client) e.body)

-- A supported Produce of records to one partition, and its answer without an error.
pub record AsksToProduce (e : Exchange) (name : Bytes) (index : ℕ) (records : Bytes) : Type 0 where
  pub request : ProduceRequest
  pub key : e.header.api ≡ produce
  pub supported : is_supported_version e.header.api e.header.version ≡ true
  pub fits : FitsProduce request
  pub body : e.body ≡ produce_bytes [] request
  pub topics :
      request.topics
      ≡ record { name = name; partitions = record { index = index; records = some records } ∷ [] }
        ∷ []
  pub response : e.response ≡ accepted_response (request_of e) name index

-- A supported Fetch of one partition, by the identifier of its topic, and its answer with records.
pub record AsksToFetch (e : Exchange) (id : Bytes) (index offset : ℕ) (records : Bytes)
    : Type 0 where
  pub request : FetchRequest
  pub partition : FetchPartitionRequest
  pub key : e.header.api ≡ fetch
  pub supported : is_supported_version e.header.api e.header.version ≡ true
  pub fits : FitsFetch request
  pub body : e.body ≡ fetch_bytes request
  pub topics : request.topics ≡ record { topic_id = id; partitions = partition ∷ [] } ∷ []
  pub place : partition.index ≡ index
  pub wanted : partition.fetch_offset ≡ offset
  pub response : e.response ≡ records_response (request_of e) id index records

produce_parsed :
    (e : Exchange) (request : ProduceRequest)
    → FitsExchange e
    → FitsProduce request
    → e.body ≡ produce_bytes [] request
    → parse_body deserialize_produce e.body ≡ ok request
produce_parsed e request fits fit body = rw body (
    parse_body-layout deserialize_produce (Decodes-produce [] (omega arith) tt request fit)
      (rw body at (body_size e fits)))

fetch_parsed :
    (e : Exchange) (request : FetchRequest)
    → FitsExchange e
    → FitsFetch request
    → e.body ≡ fetch_bytes request
    → parse_body deserialize_fetch e.body ≡ ok request
fetch_parsed e request fits fit body = rw body (
    parse_body-layout deserialize_fetch (Decodes-fetch request fit) (rw body at (body_size e fits)))

module _ {fs : FileSystem} (cache : MetadataCache) where
  abbrev answer_in : Response → World fs → Outcome (Response × World fs)
  answer_in r v = ok (r, v)

  -- What the handler of a key answers is what the controller answers.
  dispatched :
      (e : Exchange) (key : ApiKey) (response : Response) (v v' : World fs)
      → e.header.api ≡ key
      → e.response ≡ response
      → dispatch fs cache key (request_of e) v ≡ ok (response, v')
      → dispatch fs cache e.header.api (request_of e) v ≡ ok (e.response, v')
  dispatched e key response v v' same_key same answered =
      ap (λ (k : ApiKey). dispatch fs cache k (request_of e) v) same_key
      ∙ answered
      ∙ ap (λ (r : Response). answer_in r v') (sym same)

  pub fetches :
      (e : Exchange) (id : Bytes) (topic : TopicRecord) (index offset : ℕ) (bs : List Batch)
      (w : World fs)
      → FitsExchange e
      → AsksToFetch e id index offset (log_of (from_offset offset bs))
      → get_topic_by_id id cache ≡ some topic
      → log_content fs topic.name index w.files ≡ log_of bs
      → All IsBatch bs
      → length (log_of bs) < 2 ^ 63
      → (w' : World fs) × (route (main_router fs cache) (request_of e) w ≡ ok (e.response, w'))
        × (w'.files ≡ w.files)
  unfolding dispatch
  fetches e id topic index offset bs w fits asks found held h small =
      main_router-answers fs cache (request_of e) e.response w (λ s. s ≡ w.files) asks.supported
        (λ v same.
          let kept : log_content fs topic.name asks.partition.index v.files ≡ log_of bs =
            ap (λ (s : fs.State). log_content fs topic.name asks.partition.index s) same
            ∙ ap (λ (i : ℕ). log_content fs topic.name i w.files) asks.place
            ∙ held in
          let answered =
            handle_fetch_partitions-one fs cache (request_of e) asks.request asks.partition topic id
              bs v (fetch_parsed e asks.request fits asks.fits asks.body) asks.topics found kept h
              small in
          let response : e.response
              ≡ records_response (request_of e) id asks.partition.index
                  (log_of (from_offset asks.partition.fetch_offset bs)) =
            rw (asks.place, asks.wanted) asks.response in
          (v, dispatched e fetch _ v v asks.key response answered, same))

module _ {fs : FileSystem} (reliable : IsReliable fs) (cache : MetadataCache) where
  pub produces :
      (e : Exchange) (name : Bytes) (index : ℕ) (records : Bytes) (w : World fs)
      → FitsExchange e
      → AsksToProduce e name index records
      → Knows cache name index
      → (w' : World fs) × (route (main_router fs cache) (request_of e) w ≡ ok (e.response, w'))
        × (log_content fs name index w'.files ≡ log_content fs name index w.files ++ records)
  unfolding dispatch
  produces e name index records w fits asks known =
      main_router-answers fs cache (request_of e) e.response w
        (λ s. log_content fs name index s ≡ log_content fs name index w.files ++ records)
        asks.supported
        (λ v same.
          let (v', answered, grown) =
            handle_produce-one reliable cache (request_of e) asks.request name index records v
              (produce_parsed e asks.request fits asks.fits asks.body) asks.topics known in
          (
            v',
            dispatched cache e produce _ v v' asks.key asks.response answered,
            grown ∙ ap (λ (s : fs.State). log_content fs name index s ++ records) same,
          ))
