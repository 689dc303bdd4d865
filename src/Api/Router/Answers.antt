-- ===== src/Api/Router/Answers.antt =====
-- From what the controller answers to what the pipeline of `main` answers.
use codecrafters_kafka_cpp.Common.{
  ℕ, ◌^◌, ◌<◌, ◌≡◌, refl, ap, true, [], Bytes, length, append-nil, Outcome, ok, bind, arith,
}
use codecrafters_kafka_cpp.Common.Text.{codes}
use codecrafters_kafka_cpp.Core.Reader.{Reader}
use codecrafters_kafka_cpp.Core.Reader.Decodes.{Decodes, Decodes-start}
use codecrafters_kafka_cpp.Storage.FileSystem.{FileSystem}
use codecrafters_kafka_cpp.Metadata.Cache.{MetadataCache}
use codecrafters_kafka_cpp.Api.Dto.Describe.{DescribeRequest, deserialize_describe}
use codecrafters_kafka_cpp.Api.Dto.Describe.Decode.{
  Page, describe_bytes, FitsDescribe, deserialize_describe-describe_bytes,
}
use codecrafters_kafka_cpp.Api.Dto.ApiVersions.{is_supported_version}
use codecrafters_kafka_cpp.Api.Dto.Request.{Request}
use codecrafters_kafka_cpp.Api.Dto.Response.{Response, serialize_response}
use codecrafters_kafka_cpp.Api.Handler.{World, incoming, outgoing, hexdump, print}
use codecrafters_kafka_cpp.Api.Controller.{parse_body, handle, dispatch}
use codecrafters_kafka_cpp.Api.Middleware.{logging_middleware, dump_body, get_api_name}
use codecrafters_kafka_cpp.Api.Router.{route, main_router}
use codecrafters_kafka_cpp.Api.Router.Pipeline.{main_router-supported}
use codecrafters_kafka_cpp.Api.Router.Moves.{dump_body-files}

-- A body that is the layout of a request is parsed as the request.
pub parse_body-layout :
    {A : Type 0} (r : Reader A) {bytes : Bytes} {a : A}
    → Decodes r bytes a
    → length bytes < 2 ^ 64
    → parse_body r bytes ≡ ok a
unfolding parse_body
parse_body-layout {A} r {bytes} {a} d h =
    ap (λ (out : Outcome (A × ℕ)). bind out λ (b, o). ok b)
      (rw append-nil at (Decodes-start r [] d (omega arith)))

-- A DescribeTopicPartitions body as the protocol lays it out.
pub parse_body-describe_bytes :
    (req : DescribeRequest) (page : Page)
    → FitsDescribe req
    → length (describe_bytes req page) < 2 ^ 64
    → parse_body deserialize_describe (describe_bytes req page) ≡ ok req
unfolding parse_body
parse_body-describe_bytes req page h small =
    ap (λ (out : Outcome (DescribeRequest × ℕ)). bind out λ (b, o). ok b)
      (rw append-nil at (deserialize_describe-describe_bytes req page [] [] h (omega arith)))

-- A request with a supported version gets the answer of the controller, if that answers it whatever the
-- console has; and what the controller says of the files after it holds.
pub main_router-answers :
    (fs : FileSystem) (cache : MetadataCache) (request : Request) (response : Response)
    (w : World fs) (P : fs.State → Type 0)
    → is_supported_version request.header.api request.header.version ≡ true
    → ((v : World fs)
        → v.files ≡ w.files
        → (v' : World fs) × (dispatch fs cache request.header.api request v ≡ ok (response, v'))
          × P v'.files)
    → (w' : World fs) × (route (main_router fs cache) request w ≡ ok (response, w')) × P w'.files
unfolding logging_middleware handle print
main_router-answers fs cache request response w P supported answers =
    let shown : World fs =
      print
        (incoming (get_api_name request.header.api) request.header.version
          request.header.correlation_id)
        w in
    let (v', answered, holds) =
      answers (dump_body request.body shown) (dump_body-files request.body shown) in
    let name = get_api_name request.header.api in
    (
      print (hexdump (codes "Response body") (serialize_response response []))
          (print (outgoing name response.correlation_id) v'),
      rw (main_router-supported fs cache request w supported, answered) refl,
      holds,
    )
