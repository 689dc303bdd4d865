-- ===== src/Api/Dto/ApiVersions/Encode.antt =====
-- The layout of an ApiVersions response, and that the serializer appends it.
use codecrafters_kafka_cpp.Common.{[], ◌∷◌, ◌++◌, length, Bytes, be_bytes}
use codecrafters_kafka_cpp.Core.Wire.{FitsLength, array_bytes}
use codecrafters_kafka_cpp.Core.Writer.{push_back, write_be, write_compact_array}
use codecrafters_kafka_cpp.Core.Writer.Appends.{
  Appends, Appends-then, Appends-be, Appends-byte, Appends-array, All-Appends,
}
use codecrafters_kafka_cpp.Api.Registry.{to_underlying}
use codecrafters_kafka_cpp.Api.Dto.ApiVersions.{
  ApiDetails, ApiVersionsResponse, serialize_api_details, serialize_api_versions,
}

unfoldable pub api_details_bytes : ApiDetails → Bytes
api_details_bytes api =
    ((be_bytes 2 (to_underlying api.key) ++ be_bytes 2 api.min_version)
      ++ be_bytes 2 api.max_version)
    ++ 0 ∷ []

unfoldable pub api_versions_bytes : ApiVersionsResponse → Bytes
api_versions_bytes body =
    ((be_bytes 2 body.error_code ++ array_bytes api_details_bytes body.keys)
      ++ be_bytes 4 body.throttle_time_ms)
    ++ 0 ∷ []

Appends-api_details :
    (api : ApiDetails) → Appends (serialize_api_details api) (api_details_bytes api)
unfolding serialize_api_details api_details_bytes
Appends-api_details api =
    Appends-then _ (push_back 0)
      (Appends-then _ (write_be 2 api.max_version)
        (Appends-then _ (write_be 2 api.min_version) (Appends-be 2 (to_underlying api.key))
          (Appends-be 2 api.min_version))
        (Appends-be 2 api.max_version))
      (Appends-byte 0)

pub Appends-api_versions :
    (body : ApiVersionsResponse)
    → FitsLength (length body.keys)
    → Appends (serialize_api_versions body) (api_versions_bytes body)
unfolding serialize_api_versions api_versions_bytes
Appends-api_versions body h =
    Appends-then _ (push_back 0)
      (Appends-then _ (write_be 4 body.throttle_time_ms)
        (Appends-then _ (write_compact_array serialize_api_details body.keys)
          (Appends-be 2 body.error_code)
          (Appends-array serialize_api_details api_details_bytes body.keys h
            (All-Appends serialize_api_details api_details_bytes Appends-api_details body.keys)))
        (Appends-be 4 body.throttle_time_ms))
      (Appends-byte 0)
