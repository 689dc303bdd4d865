-- ===== src/Api/Dto/ApiVersions/Support.antt =====
-- Which versions the broker takes.
use codecrafters_kafka_cpp.Common.{ℕ, ◌≤◌, ◌≡◌, ◌≢◌, ◌↔◌, true, arith}
use codecrafters_kafka_cpp.Api.Registry.{
  ApiKey, produce, fetch, api_versions, describe_topic_partitions, other, to_underlying,
}
use codecrafters_kafka_cpp.Api.Dto.ApiVersions.{
  in_range, find_api, get_api_details, is_supported_version, supported_apis,
}

-- The versions that the broker means to take, by key.
abbrev pub IsSupported : ApiKey → ℕ → Type 0
IsSupported produce version = version ≤ 11
IsSupported fetch version = version ≤ 16
IsSupported api_versions version = version ≤ 4
IsSupported describe_topic_partitions version = version ≤ 4
IsSupported (other raw) version = ⊥

-- A key that no enumerator has, as every cast of another value gives.
abbrev pub IsKey : ApiKey → Type 0
IsKey (other raw) = (raw ≢ 0) × (raw ≢ 1) × (raw ≢ 18) × (raw ≢ 75)
IsKey _ = Unit {0}

-- A version is taken exactly if it lies in the range of its key, from 0 up to the maximum; a key that
-- is none of the four has no version.
pub is_supported_version_iff :
    (key : ApiKey) (version : ℕ)
    → IsKey key
    → (is_supported_version key version ≡ true) ↔ IsSupported key version
unfolding is_supported_version get_api_details find_api supported_apis in_range to_underlying
is_supported_version_iff produce version h = ground arith
is_supported_version_iff fetch version h = ground arith
is_supported_version_iff api_versions version h = ground arith
is_supported_version_iff describe_topic_partitions version h = ground arith
is_supported_version_iff (other raw) version h = ground arith
