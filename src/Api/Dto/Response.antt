-- ===== src/Api/Dto/Response.antt =====
-- src/api/dto/response.hpp: the body of one of the four kinds, behind a size and a header.
pub mod Frame
use codecrafters_kafka_cpp.Common.{
  ℕ, ◌+◌, ◌-◌, ◌%◌, ◌^◌, ◌++◌, Bytes, length, take, drop, le_bytes, byteswap,
}
use codecrafters_kafka_cpp.Core.Writer.{◌|>◌, push_back, write_be}
use codecrafters_kafka_cpp.Api.Dto.ApiVersions.{ApiVersionsResponse, serialize_api_versions}
use codecrafters_kafka_cpp.Api.Dto.Describe.{DescribeResponse, serialize_describe}
use codecrafters_kafka_cpp.Api.Dto.Fetch.{FetchResponse, serialize_fetch}
use codecrafters_kafka_cpp.Api.Dto.Produce.{ProduceResponse, serialize_produce}

pub data ResponseBody : Type 0 where
  api_versions : ApiVersionsResponse → ResponseBody
  describe : DescribeResponse → ResponseBody
  fetch : FetchResponse → ResponseBody
  produce : ProduceResponse → ResponseBody

pub record Response : Type 0 where
  pub correlation_id : ℕ
  pub body : ResponseBody

-- The visitor: a body of header version 1 has the header's tag buffer in front.
unfoldable pub serialize_body : ResponseBody → Bytes → Bytes
serialize_body (api_versions body) buffer = buffer |> serialize_api_versions body
serialize_body (describe body) buffer = buffer |> push_back 0 |> serialize_describe body
serialize_body (fetch body) buffer = buffer |> push_back 0 |> serialize_fetch body
serialize_body (produce body) buffer = buffer |> push_back 0 |> serialize_produce body

-- `std::memcpy` of the swapped size over the four bytes at `size_offset`.
unfoldable pub patch_size : ℕ → ℕ → Bytes → Bytes
patch_size size_offset message_size buffer =
    take size_offset buffer
    ++ (le_bytes 4 (byteswap 4 message_size) ++ drop (size_offset + 4) buffer)

unfoldable pub serialize_response : Response → Bytes → Bytes
serialize_response res buffer =
    let size_offset = length buffer in
    let written =
      buffer
      |> push_back 0
      |> push_back 0
      |> push_back 0
      |> push_back 0
      |> write_be 4 res.correlation_id
      |> serialize_body res.body in
    patch_size size_offset ((length written - size_offset - 4) % 2 ^ 32) written
