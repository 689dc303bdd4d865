-- ===== src/Api/Middleware.antt =====
-- src/api/middleware.cpp: the check of the version, and the log on the console.
use codecrafters_kafka_cpp.Common.{
  ℕ, ◌^◌, ◌-◌, [], ◌∷◌, Bytes, if◌then◌else◌, Outcome, ok, throws, invalid_argument, bind,
}
use codecrafters_kafka_cpp.Storage.FileSystem.{FileSystem}
use codecrafters_kafka_cpp.Common.Text.{codes}
use codecrafters_kafka_cpp.Api.Registry.{
  ApiKey, produce, fetch, api_versions, describe_topic_partitions, other,
}
use codecrafters_kafka_cpp.Api.Dto.ApiVersions.{is_supported_version}
use codecrafters_kafka_cpp.Api.Dto.Response
use codecrafters_kafka_cpp.Api.Dto.Response.{Response, ResponseBody, serialize_response}
use codecrafters_kafka_cpp.Api.Handler.{
  rejected, incoming, outgoing, hexdump, World, M, MiddlewareFunc, print, lift,
}

unfoldable pub get_api_name : ApiKey → Bytes
get_api_name api_versions = codes "ApiVersions"
get_api_name describe_topic_partitions = codes "DescribeTopicPartitions"
get_api_name fetch = codes "Fetch"
get_api_name produce = codes "Unknown"
get_api_name (other raw) = codes "Unknown"

-- The `switch` over the key of a request whose version is refused.
abbrev pub rejection : ApiKey → ℕ → Outcome Response
rejection api_versions correlation_id = ok (record {
  correlation_id = correlation_id;
  body =
      Response.ResponseBody.api_versions
        (record { error_code = 35; keys = []; throttle_time_ms = 0 });
})
rejection describe_topic_partitions correlation_id = ok (record {
  correlation_id = correlation_id;
  body =
      Response.ResponseBody.describe
        (record { throttle_time_ms = 0; topics = []; next_cursor = 2 ^ 8 - 1 });
})
rejection fetch correlation_id = ok (record {
  correlation_id = correlation_id;
  body =
      Response.ResponseBody.fetch
        (record { throttle_time_ms = 0; error_code = 35; session_id = 0; responses = [] });
})
rejection produce correlation_id = throws invalid_argument
rejection (other raw) correlation_id = throws invalid_argument

module _ {fs : FileSystem} where
  unfoldable pub reject : ApiKey → ℕ → M fs Response
  reject key correlation_id = lift (rejection key correlation_id)

  unfoldable pub version_validator_middleware : MiddlewareFunc fs
  version_validator_middleware request next w =
      if is_supported_version request.header.api request.header.version
      then next request w
      else reject request.header.api request.header.correlation_id (print rejected w)

  unfoldable pub dump_body : Bytes → World fs → World fs
  dump_body [] w = w
  dump_body (b ∷ bs) w = print (hexdump (codes "Request Body") (b ∷ bs)) w

  unfoldable pub logging_middleware : MiddlewareFunc fs
  logging_middleware request next w =
      let name = get_api_name request.header.api in
      let before =
        dump_body request.body
          (print (incoming name request.header.version request.header.correlation_id) w) in
      bind (next request before) λ (response, after). ok (
        response,
        print (hexdump (codes "Response body") (serialize_response response []))
            (print (outgoing name response.correlation_id) after),
      )
