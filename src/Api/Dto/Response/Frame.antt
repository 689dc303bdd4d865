-- ===== src/Api/Dto/Response/Frame.antt =====
-- A response frame: the size of what follows, the correlation identifier, the tag buffer of a header
-- of version 1, and the body. The layouts of the bodies are those of the `Encode` modules.
use codecrafters_kafka_cpp.Common.{
  ℕ, ◌+◌, ◌-◌, ◌%◌, ◌^◌, ◌<◌, ◌≡◌, ◌∙◌, ap₂, sym, [], ◌∷◌, ◌++◌, append_assoc, length,
  length-append, drop, take-append, drop-append, Bytes, be_bytes, le_bytes-byteswap, arith,
}
use codecrafters_kafka_cpp.Core.Writer.{◌|>◌, push_back, write_be}
use codecrafters_kafka_cpp.Core.Writer.Appends.{Appends, Appends-then, Appends-be, Appends-byte}
use codecrafters_kafka_cpp.Api.Dto.ApiVersions.Encode.{api_versions_bytes, Appends-api_versions}
use codecrafters_kafka_cpp.Api.Dto.Describe.Encode.{
  describe_response_bytes, FitsDescribeResponse, Appends-describe,
}
use codecrafters_kafka_cpp.Api.Dto.Fetch.Encode.{
  fetch_response_bytes, FitsFetchResponse, Appends-fetch,
}
use codecrafters_kafka_cpp.Api.Dto.Produce.Encode.{
  produce_response_bytes, FitsProduceResponse, Appends-produce,
}
use codecrafters_kafka_cpp.Core.Wire.{FitsLength}
use codecrafters_kafka_cpp.Api.Dto.Response.{
  Response, ResponseBody, api_versions, describe, fetch, produce, serialize_body, patch_size,
  serialize_response,
}

unfoldable pub body_bytes : ResponseBody → Bytes
body_bytes (api_versions body) = api_versions_bytes body
body_bytes (describe body) = 0 ∷ describe_response_bytes body
body_bytes (fetch body) = 0 ∷ fetch_response_bytes body
body_bytes (produce body) = 0 ∷ produce_response_bytes body

-- Every array and string of the body has a length that its 32-bit compact length can hold.
abbrev pub FitsBody : ResponseBody → Type 0
FitsBody (api_versions body) = FitsLength (length body.keys)
FitsBody (describe body) = FitsDescribeResponse body
FitsBody (fetch body) = FitsFetchResponse body
FitsBody (produce body) = FitsProduceResponse body

unfoldable pub payload_bytes : Response → Bytes
payload_bytes r = be_bytes 4 r.correlation_id ++ body_bytes r.body

unfoldable pub frame_bytes : Response → Bytes
frame_bytes r = be_bytes 4 (length (payload_bytes r)) ++ payload_bytes r

Appends-body :
    (body : ResponseBody) → FitsBody body → Appends (serialize_body body) (body_bytes body)
unfolding serialize_body body_bytes
Appends-body (api_versions body) h = Appends-api_versions body h
Appends-body (describe body) h =
    Appends-then (push_back 0) _ (Appends-byte 0) (Appends-describe body h)
Appends-body (fetch body) h = Appends-then (push_back 0) _ (Appends-byte 0) (Appends-fetch body h)
Appends-body (produce body) h =
    Appends-then (push_back 0) _ (Appends-byte 0) (Appends-produce body h)

abbrev four_zeros : Bytes
four_zeros = 0 ∷ 0 ∷ 0 ∷ 0 ∷ []

past_zeros :
    (buffer payload : Bytes)
    → drop (length buffer + 4) (buffer ++ (four_zeros ++ payload)) ≡ payload
past_zeros buffer payload =
    ap₂ (λ (n : ℕ) (b : Bytes). drop n b) (sym (length-append buffer four_zeros))
      (sym (append_assoc buffer four_zeros payload))
    ∙ drop-append (buffer ++ four_zeros) payload

-- The size goes over the four zeros that held its place.
patch_size_lem :
    (buffer payload : Bytes) (size : ℕ)
    → patch_size (length buffer) size (buffer ++ (four_zeros ++ payload))
      ≡ buffer ++ (be_bytes 4 size ++ payload)
unfolding patch_size
patch_size_lem buffer payload size =
    ap₂ (λ (xs ys : Bytes). xs ++ ys) (take-append buffer (four_zeros ++ payload))
      (ap₂ (λ (xs ys : Bytes). xs ++ ys) (le_bytes-byteswap 4 size) (past_zeros buffer payload))

Appends-zeros :
    Appends
      (λ buffer. buffer |> push_back 0 |> push_back 0 |> push_back 0 |> push_back 0)
      four_zeros
Appends-zeros buffer = simp append_assoc

-- What stands in the buffer before the size is known.
Appends-unsized :
    (r : Response)
    → FitsBody r.body
    → Appends
        (λ buffer.
          buffer
          |> push_back 0
          |> push_back 0
          |> push_back 0
          |> push_back 0
          |> write_be 4 r.correlation_id
          |> serialize_body r.body)
        (four_zeros ++ payload_bytes r)
unfolding payload_bytes
Appends-unsized r h =
    Appends-then _ (λ buffer. buffer |> write_be 4 r.correlation_id |> serialize_body r.body)
      Appends-zeros
      (Appends-then (write_be 4 r.correlation_id) (serialize_body r.body)
        (Appends-be 4 r.correlation_id) (Appends-body r.body h))

size_of_payload :
    (buffer payload : Bytes)
    → length payload < 2 ^ 32
    → (length (buffer ++ (four_zeros ++ payload)) - length buffer - 4) % 2 ^ 32 ≡ length payload
size_of_payload buffer payload h =
    omega (arith, length-append buffer (four_zeros ++ payload), length-append four_zeros payload)

-- If the arrays and strings of the body fit their compact lengths and the frame has fewer than 2 ^ 32
-- bytes behind its size, `Serializer<Response>` keeps the buffer and appends the frame: a size of four
-- bytes, which is the exact number of the bytes behind it, the correlation identifier, and the body in
-- its layout.
pub serialize_response-frame :
    (r : Response) (buffer : Bytes)
    → FitsBody r.body
    → length (payload_bytes r) < 2 ^ 32
    → serialize_response r buffer ≡ buffer ++ frame_bytes r
unfolding serialize_response frame_bytes
serialize_response-frame r buffer h small =
    rw (Appends-unsized r h buffer, size_of_payload buffer (payload_bytes r) small)
      (patch_size_lem buffer (payload_bytes r) (length (payload_bytes r)))
