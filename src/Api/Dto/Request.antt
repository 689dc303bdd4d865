-- ===== src/Api/Dto/Request.antt =====
-- src/api/dto/request.hpp: the header of a request, and a request as a header and a body.
pub mod Decode
pub mod Fields
use codecrafters_kafka_cpp.Common.{
  ℕ, ◌+◌, ◌-◌, ◌%◌, ◌^◌, List, Bytes, length, drop, ◌==◌, leb, is_positive, if◌then◌else◌, ok,
  undefined,
}
use codecrafters_kafka_cpp.Core.Reader.{
  Reader, pure, ◌>>=◌, ◌>>◌, skip, read_be, read_unsigned_varint,
}
use codecrafters_kafka_cpp.Api.Registry.{ApiKey, to_api_key, get_request_header_version}

pub record RequestHeader : Type 0 where
  pub api : ApiKey
  pub version : ℕ
  pub correlation_id : ℕ

pub record Request : Type 0 where
  pub message_size : ℕ
  pub header : RequestHeader
  pub body : Bytes

-- `client_id_length` is an `int16_t`: null is -1. Of the tag buffer only the count is read.
unfoldable pub deserialize_header : Reader RequestHeader
deserialize_header = do
  raw_api ← read_be 2
  version ← read_be 2
  correlation_id ← read_be 4
  client_id_length ← read_be 2
  if is_positive 16 client_id_length then skip client_id_length else pure tt
  if get_request_header_version (to_api_key raw_api) version == 2
      then read_unsigned_varint
      else pure 0
  pure (record { api = to_api_key raw_api; version = version; correlation_id = correlation_id })

-- What is left of the span. `buffer.size() - offset` wraps where the header has passed the end, and
-- the copy from there is undefined.
unfoldable pub read_rest : Reader Bytes
read_rest buffer offset =
    if leb offset (length buffer) then ok (drop offset buffer, length buffer) else undefined

-- The message size is left unset here, and the session sets it before the request is handled.
unfoldable pub deserialize_request : Reader Request
deserialize_request = do
  header ← deserialize_header
  body ← read_rest
  pure (record { message_size = 0; header = header; body = body })
