-- ===== src/Api/Program/Pipeline.antt =====
-- src/api/middleware.cpp and the pipeline of src/main.cpp, cut at the lines that they print. A line
-- stands for what is printed of one event, a dump for all its lines.
use codecrafters_kafka_cpp.Common.{[], ◌∷◌, Bytes, if◌then◌else◌}
use codecrafters_kafka_cpp.Common.Text.{codes}
use codecrafters_kafka_cpp.Metadata.Cache.{MetadataCache}
use codecrafters_kafka_cpp.Api.Dto.ApiVersions.{is_supported_version}
use codecrafters_kafka_cpp.Api.Dto.Request.{Request}
use codecrafters_kafka_cpp.Api.Dto.Response.{Response, serialize_response}
use codecrafters_kafka_cpp.Api.Handler.{rejected, incoming, outgoing, hexdump}
use codecrafters_kafka_cpp.Api.Middleware.{get_api_name, rejection}
use codecrafters_kafka_cpp.Api.Program.{Program, returns, prints, ◌>>=◌, pure}
use codecrafters_kafka_cpp.Api.Program.Controller.{dispatch}

unfoldable pub version_validator : Request → (Request → Program Response) → Program Response
version_validator request next =
    if is_supported_version request.header.api request.header.version
    then next request
    else prints rejected (returns (rejection request.header.api request.header.correlation_id))

unfoldable pub dump_body : Bytes → Program Response → Program Response
dump_body [] p = p
dump_body (b ∷ bs) p = prints (hexdump (codes "Request Body") (b ∷ bs)) p

unfoldable pub log_response : Bytes → Response → Program Response
log_response name response =
    prints (outgoing name response.correlation_id)
      (prints (hexdump (codes "Response body") (serialize_response response [])) (pure response))

unfoldable pub logging : Request → (Request → Program Response) → Program Response
unfolding dump_body log_response ◌>>=◌
logging request next =
    let name = get_api_name request.header.api in
    prints (incoming name request.header.version request.header.correlation_id)
      (dump_body request.body (next request >>= log_response name))

-- The router of `main`: the version check, then the log, then the controller.
unfoldable pub route_main : MetadataCache → Request → Program Response
unfolding version_validator logging dispatch
route_main cache request =
    version_validator request
      λ req. logging req λ handled. dispatch cache handled.header.api handled
