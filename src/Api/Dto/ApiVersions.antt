-- ===== src/Api/Dto/ApiVersions.antt =====
-- src/api/dto/api_versions.hpp and api_versions.cpp: the table of the supported APIs.
pub mod Support
pub mod Encode
use codecrafters_kafka_cpp.Common.{
  ℕ, Bool, true, false, ◌&&◌, ◌==◌, if◌then◌else◌, leb, List, [], ◌∷◌, Option, none, some, Bytes,
}
use codecrafters_kafka_cpp.Core.Writer.{◌|>◌, push_back, write_be, write_compact_array}
use codecrafters_kafka_cpp.Api.Registry.{
  ApiKey, produce, fetch, api_versions, describe_topic_partitions, to_underlying,
}

pub record ApiDetails : Type 0 where
  pub key : ApiKey
  pub min_version : ℕ
  pub max_version : ℕ

pub record ApiVersionsResponse : Type 0 where
  pub error_code : ℕ
  pub keys : List ApiDetails
  pub throttle_time_ms : ℕ

abbrev details : ApiKey → ℕ → ℕ → ApiDetails
details key min max = record { key = key; min_version = min; max_version = max }

unfoldable pub supported_apis : List ApiDetails
supported_apis =
    details fetch 0 16
    ∷ details produce 0 11
    ∷ details api_versions 0 4
    ∷ details describe_topic_partitions 0 4
    ∷ []

-- `std::ranges::find_if` by the raw key.
unfoldable pub find_api : ℕ → List ApiDetails → Option ApiDetails
find_api raw_key [] = none
find_api raw_key (api ∷ apis) =
    if to_underlying api.key == raw_key then some api else find_api raw_key apis

unfoldable pub get_api_details : ℕ → Option ApiDetails
get_api_details raw_key = find_api raw_key supported_apis

unfoldable pub get_all_api_details : List ApiDetails
get_all_api_details = supported_apis

unfoldable pub in_range : Option ApiDetails → ℕ → Bool
in_range none version = false
in_range (some api) version = leb api.min_version version && leb version api.max_version

unfoldable pub is_supported_version : ApiKey → ℕ → Bool
is_supported_version key version = in_range (get_api_details (to_underlying key)) version

unfoldable pub serialize_api_details : ApiDetails → Bytes → Bytes
serialize_api_details api buffer =
    buffer
    |> write_be 2 (to_underlying api.key)
    |> write_be 2 api.min_version
    |> write_be 2 api.max_version
    |> push_back 0

unfoldable pub serialize_api_versions : ApiVersionsResponse → Bytes → Bytes
serialize_api_versions body buffer =
    buffer
    |> write_be 2 body.error_code
    |> write_compact_array serialize_api_details body.keys
    |> write_be 4 body.throttle_time_ms
    |> push_back 0
