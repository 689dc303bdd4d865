-- ===== src/Tests/Pipeline.antt =====
-- The pipeline of the broker.
use codecrafters_kafka_cpp.Common.{◌≡◌, refl, ◌∙◌, ok, [], ◌∷◌, true, false}
use codecrafters_kafka_cpp.Api.Registry.{fetch, api_versions, to_underlying}
use codecrafters_kafka_cpp.Api.Dto.ApiVersions.{
  is_supported_version, get_api_details, find_api, supported_apis, in_range,
}
use codecrafters_kafka_cpp.Api.Dto.Request.{Request}
use codecrafters_kafka_cpp.Api.Handler.{World, print, incoming, outgoing, hexdump}
use codecrafters_kafka_cpp.Api.Controller.{handle, dispatch, handle_api_versions}
use codecrafters_kafka_cpp.Api.Middleware.{
  version_validator_middleware, logging_middleware, get_api_name, dump_body,
}
use codecrafters_kafka_cpp.Api.Router.{KafkaRouterBuilder, route, main_router}
use codecrafters_kafka_cpp.Api.Router.Pipeline.{
  IsRejection, main_router-supported, main_router-rejects,
}
use codecrafters_kafka_cpp.Api.Router.Safety.{main_router_echoes, main_router_read_only}
use codecrafters_kafka_cpp.Api.Dto.Response.{Response, serialize_response}
use codecrafters_kafka_cpp.Common.Text.{codes}
use codecrafters_kafka_cpp.Tests.Data.{memory, no_files, foo_cache}

abbrev start : World memory
start = record { files = no_files; console = [] }

abbrev versions_request : Request
versions_request = record {
  message_size = 0;
  header = record { api = api_versions; version = 4; correlation_id = 7 };
  body = [];
}

abbrev new_fetch : Request
new_fetch = record {
  message_size = 0;
  header = record { api = fetch; version = 17; correlation_id = 7 };
  body = [];
}

abbrev logging_first : KafkaRouterBuilder memory
logging_first = record {
  middlewares = logging_middleware ∷ version_validator_middleware ∷ [];
  controller = handle memory foo_cache;
}

versions-supported : is_supported_version api_versions 4 ≡ true
unfolding is_supported_version get_api_details find_api supported_apis in_range to_underlying
versions-supported = refl

fetch_17-unsupported : is_supported_version fetch 17 ≡ false
unfolding is_supported_version get_api_details find_api supported_apis in_range to_underlying
fetch_17-unsupported = refl

main_router-rejects_example :
    IsRejection fetch 7 start (route (main_router memory foo_cache) new_fetch start)
main_router-rejects_example =
    main_router-rejects memory foo_cache new_fetch start fetch_17-unsupported

abbrev versions_response : Response
versions_response = handle_api_versions versions_request

abbrev versions_logged : World memory
versions_logged =
    print (hexdump (codes "Response body") (serialize_response versions_response []))
      (print (outgoing (codes "ApiVersions") 7) (print (incoming (codes "ApiVersions") 4 7) start))

versions_answered :
    route (main_router memory foo_cache) versions_request start
    ≡ ok (versions_response, versions_logged)
unfolding logging_middleware handle dispatch handle_api_versions get_api_name dump_body
versions_answered =
    main_router-supported memory foo_cache versions_request start versions-supported ∙ refl

main_router_echoes_example : versions_response.correlation_id ≡ 7
main_router_echoes_example =
    main_router_echoes memory foo_cache versions_request versions_response start versions_logged
      versions_answered

main_router_read_only_example : versions_logged.files ≡ start.files
main_router_read_only_example =
    main_router_read_only memory foo_cache versions_request versions_response start versions_logged
      (λ e. cc) versions_answered
