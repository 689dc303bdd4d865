-- ===== src/Tests/Requests.antt =====
-- The requests: support, headers and bodies.
use codecrafters_kafka_cpp.Common.{
  ℕ, ◌+◌, ◌≤◌, drop, ◌≡◌, ◌↔◌, refl, [], ◌∷◌, ◌++◌, length, true, some, none, Bytes, from_le,
  byteswap, be_bytes, le_bytes, ok, arith,
}
use codecrafters_kafka_cpp.Core.Wire.{varint_bytes, groups, array_bytes, items_bytes, string_bytes}
use codecrafters_kafka_cpp.Core.Reader.Decodes.{Decodes}
use codecrafters_kafka_cpp.Api.Registry.{
  fetch, describe_topic_partitions, to_underlying, to_api_key, get_request_header_version,
}
use codecrafters_kafka_cpp.Api.Dto.ApiVersions.{is_supported_version}
use codecrafters_kafka_cpp.Api.Dto.ApiVersions.Support.{IsSupported, is_supported_version_iff}
use codecrafters_kafka_cpp.Api.Dto.Describe.{DescribeRequest, deserialize_describe}
use codecrafters_kafka_cpp.Api.Dto.Describe.Decode.{
  Page, describe_bytes, describe_topic_bytes, page_bytes, FitsDescribe,
  deserialize_describe-describe_bytes,
}
use codecrafters_kafka_cpp.Api.Dto.Fetch.{FetchRequest, deserialize_fetch}
use codecrafters_kafka_cpp.Api.Dto.Fetch.Decode.{fetch_bytes, FitsFetch, Decodes-fetch}
use codecrafters_kafka_cpp.Api.Dto.Produce.{ProduceRequest, deserialize_produce}
use codecrafters_kafka_cpp.Api.Dto.Produce.Decode.{produce_bytes, FitsProduce, Decodes-produce}
use codecrafters_kafka_cpp.Api.Dto.Request.{
  Request, RequestHeader, deserialize_header, deserialize_request, read_rest,
}
use codecrafters_kafka_cpp.Core.Reader.{read_be, read_span, skip, read_unsigned_varint, varint_loop}
use codecrafters_kafka_cpp.Api.Dto.Request.Decode.{
  header_bytes, FitsHeader, deserialize_request-frame,
}
use codecrafters_kafka_cpp.Api.Dto.Request.Fields.{
  IsHeader, header_size, deserialize_request-IsHeader,
}
use codecrafters_kafka_cpp.Tests.Data.{foo, foo_id}

is_supported_version_iff_example : (is_supported_version fetch 16 ≡ true) ↔ IsSupported fetch 16
is_supported_version_iff_example = is_supported_version_iff fetch 16 tt

abbrev describe_header : RequestHeader
describe_header = record { api = describe_topic_partitions; version = 0; correlation_id = 7 }

describe_header-FitsHeader : FitsHeader describe_header
unfolding to_underlying
describe_header-FitsHeader = record {
  key = tt;
  api = omega arith;
  version = omega arith;
  correlation_id = omega arith;
}

describe_header_size : length (header_bytes describe_header (some foo)) ≡ 14
unfolding header_bytes be_bytes le_bytes to_underlying varint_bytes groups
    get_request_header_version
describe_header_size = refl

deserialize_request-frame_example :
    deserialize_request (header_bytes describe_header (some foo) ++ 1 ∷ 2 ∷ []) 0
    ≡ ok (
      record { message_size = 0; header = describe_header; body = 1 ∷ 2 ∷ [] },
      length (header_bytes describe_header (some foo) ++ 1 ∷ 2 ∷ []),
    )
deserialize_request-frame_example =
    deserialize_request-frame describe_header (some foo) (1 ∷ 2 ∷ []) describe_header-FitsHeader
      (omega arith) (rw describe_header_size (omega arith))

-- A DescribeTopicPartitions from "foo" whose count of tags takes two bytes, with a body of two bytes.
abbrev long_count : Bytes
long_count = 0 ∷ 75 ∷ 0 ∷ 0 ∷ 0 ∷ 0 ∷ 0 ∷ 7 ∷ 0 ∷ 3 ∷ 102 ∷ 111 ∷ 111 ∷ 129 ∷ 0 ∷ 1 ∷ 2 ∷ []

abbrev long_request : Request
long_request = record { message_size = 0; header = describe_header; body = 1 ∷ 2 ∷ [] }

long_count-reads : deserialize_request long_count 0 ≡ ok (long_request, 17)
unfolding deserialize_request deserialize_header read_be read_span byteswap be_bytes le_bytes
    from_le skip read_unsigned_varint varint_loop to_api_key get_request_header_version read_rest
long_count-reads = refl

deserialize_request-IsHeader_example :
    IsHeader long_count describe_header
    × (header_size describe_header long_count ≤ 17)
    × (1 ∷ 2 ∷ [] ≡ drop (header_size describe_header long_count) long_count)
    × (◌≡◌ {A = ℕ} 17 17)
deserialize_request-IsHeader_example =
    deserialize_request-IsHeader long_count long_request 17 long_count-reads

abbrev pub describe_foo : DescribeRequest
describe_foo = record { topics = record { name = foo } ∷ record { name = 98 ∷ [] } ∷ [] }

pub describe_foo-FitsDescribe : FitsDescribe describe_foo
describe_foo-FitsDescribe = record { count = omega arith; names = (omega arith, (omega arith, tt)) }

-- From the partition 1 of "foo" on.
abbrev pub foo_page : Page
foo_page = record { response_partition_limit = 2000; cursor = some (foo, 1) }

pub describe_foo_size : length (describe_bytes describe_foo foo_page) ≡ 24
unfolding describe_bytes page_bytes array_bytes items_bytes describe_topic_bytes string_bytes
    varint_bytes groups be_bytes le_bytes
describe_foo_size = refl

deserialize_describe-describe_bytes_example :
    deserialize_describe (8 ∷ 8 ∷ [] ++ (describe_bytes describe_foo foo_page ++ 9 ∷ [])) 2
    ≡ ok (describe_foo, 2 + length (array_bytes describe_topic_bytes describe_foo.topics) + 1)
deserialize_describe-describe_bytes_example =
    deserialize_describe-describe_bytes describe_foo foo_page (8 ∷ 8 ∷ []) (9 ∷ [])
      describe_foo-FitsDescribe (rw describe_foo_size (omega arith))

-- The records of the partition 0 of "foo" from the offset 2 on.
abbrev pub fetch_foo : FetchRequest
fetch_foo = record {
  max_wait_ms = 500;
  min_bytes = 1;
  max_bytes = 52428800;
  isolation_level = 1;
  session_id = 0;
  session_epoch = 0;
  topics =
      record {
        topic_id = foo_id;
        partitions =
            record {
              index = 0;
              current_leader_epoch = 0;
              fetch_offset = 2;
              last_fetched_epoch = 0;
              log_start_offset = 0;
              partition_max_bytes = 1048576;
            }
            ∷ [];
      }
      ∷ [];
}

pub fetch_foo-FitsFetch : FitsFetch fetch_foo
fetch_foo-FitsFetch = record {
  max_wait_ms = omega arith;
  min_bytes = omega arith;
  max_bytes = omega arith;
  isolation_level = omega arith;
  session_id = omega arith;
  session_epoch = omega arith;
  count = omega arith;
  topics = (
    record {
      topic_id = refl;
      count = omega arith;
      partitions = (
        record {
          index = omega arith;
          current_leader_epoch = omega arith;
          fetch_offset = omega arith;
          last_fetched_epoch = omega arith;
          log_start_offset = omega arith;
          partition_max_bytes = omega arith;
        },
        tt,
      );
    },
    tt,
  );
}

Decodes-fetch_example : Decodes deserialize_fetch (fetch_bytes fetch_foo) fetch_foo
Decodes-fetch_example = Decodes-fetch fetch_foo fetch_foo-FitsFetch

-- A record for the partition 0 of "foo" and one for the partition 7, which is not there.
abbrev pub produce_foo : ProduceRequest
produce_foo = record {
  transactional_id = none;
  acks = 1;
  timeout_ms = 1500;
  topics =
      record {
        name = foo;
        partitions =
            record { index = 0; records = some (1 ∷ 2 ∷ []) }
            ∷ record { index = 7; records = some (3 ∷ []) }
            ∷ [];
      }
      ∷ [];
}

pub produce_foo-FitsProduce : FitsProduce produce_foo
produce_foo-FitsProduce = record {
  transactional_id = tt;
  acks = omega arith;
  timeout_ms = omega arith;
  count = omega arith;
  topics = (
    record {
      name = omega arith;
      count = omega arith;
      partitions = (
        record { index = omega arith; records = omega arith },
        (record { index = omega arith; records = omega arith }, tt),
      );
    },
    tt,
  );
}

Decodes-produce_example :
    Decodes deserialize_produce (produce_bytes ((3, 9 ∷ []) ∷ []) produce_foo) produce_foo
Decodes-produce_example =
    Decodes-produce ((3, 9 ∷ []) ∷ []) (omega arith) ((omega arith, omega arith), tt) produce_foo
      produce_foo-FitsProduce
