-- ===== src/Api/Registry.antt =====
-- src/api/registry.hpp and registry.cpp: the keys of the APIs and the header version of each.
use codecrafters_kafka_cpp.Common.{ℕ, ◌^◌, ◌&&◌, ◌==◌, if◌then◌else◌, leb, ltb}

-- `enum class ApiKey : uint16_t`. A cast gives it any other value of 16 bits too.
pub data ApiKey : Type 0 where
  produce fetch api_versions describe_topic_partitions : ApiKey
  other : ℕ → ApiKey

-- `static_cast<ApiKey>(raw)`
unfoldable pub to_api_key : ℕ → ApiKey
to_api_key raw =
    if raw == 0
    then produce
    else if raw == 1
    then fetch
    else if raw == 18
    then api_versions
    else if raw == 75
    then describe_topic_partitions
    else other raw

-- `std::to_underlying`
unfoldable pub to_underlying : ApiKey → ℕ
to_underlying produce = 0
to_underlying fetch = 1
to_underlying api_versions = 18
to_underlying describe_topic_partitions = 75
to_underlying (other raw) = raw

-- The parameter is an `int16_t`: a version from 2 ^ 15 on is negative.
unfoldable pub get_request_header_version : ApiKey → ℕ → ℕ
get_request_header_version api_versions version = 1
get_request_header_version describe_topic_partitions version = 2
get_request_header_version fetch version = if leb 12 version && ltb version (2 ^ 15) then 2 else 1
get_request_header_version produce version = 2
get_request_header_version (other raw) version = 1
