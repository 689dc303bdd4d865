-- ===== src/Api/Dto/Request/Decode.antt =====
-- A request as the protocol lays it out, and what the broker reads of it.
use codecrafters_kafka_cpp.Common.{
  ℕ, ◌+◌, ◌-◌, ◌^◌, ◌<◌, ◌≡◌, refl, true, Bool-cases, inl, inr, [], ◌∷◌, ◌++◌, length,
  length-append, drop-append, le→leb, Option, none, some, Bytes, be_bytes, ◌==◌, is_positive,
  if◌then◌else◌, ok, arith,
}
use codecrafters_kafka_cpp.Core.Wire.{varint_bytes}
use codecrafters_kafka_cpp.Core.Reader.{pure, skip, read_unsigned_varint}
use codecrafters_kafka_cpp.Core.Reader.Decodes.{
  Decodes, Decodes-bind, Decodes-last, Decodes-pure, Decodes-be, Decodes-skip, Decodes-varint,
  Decodes-start,
}
use codecrafters_kafka_cpp.Api.Registry.{
  ApiKey, other, to_api_key, to_underlying, get_request_header_version,
}
use codecrafters_kafka_cpp.Api.Dto.ApiVersions.Support.{IsKey}
use codecrafters_kafka_cpp.Api.Dto.Request.{
  RequestHeader, deserialize_header, deserialize_request, read_rest,
}

-- The length that stands for the client's name, which may be null.
abbrev client_length : Option Bytes → ℕ
client_length none = 2 ^ 16 - 1
client_length (some name) = length name

abbrev client_name : Option Bytes → Bytes
client_name none = []
client_name (some name) = name

abbrev pub FitsClient : Option Bytes → Type 0
FitsClient none = Unit {0}
FitsClient (some name) = length name < 2 ^ 15

-- The tag buffer, empty, of a header of version 2.
abbrev header_tags : RequestHeader → Bytes
header_tags h = if get_request_header_version h.api h.version == 2 then varint_bytes 0 else []

unfoldable pub header_bytes : RequestHeader → Option Bytes → Bytes
header_bytes h client =
    be_bytes 2 (to_underlying h.api)
    ++ (be_bytes 2 h.version
        ++ (be_bytes 4 h.correlation_id
            ++ (be_bytes 2 (client_length client) ++ (client_name client ++ header_tags h))))

pub record FitsHeader (h : RequestHeader) : Type 0 where
  pub key : IsKey h.api
  pub api : to_underlying h.api < 2 ^ 16
  pub version : h.version < 2 ^ 16
  pub correlation_id : h.correlation_id < 2 ^ 32

-- The value of a key, cast back, gives the key, for the four keys and for any other value of 16 bits.
pub to_api_key-to_underlying : (key : ApiKey) → IsKey key → to_api_key (to_underlying key) ≡ key
unfolding to_api_key to_underlying
to_api_key-to_underlying (other raw) h = ground arith
to_api_key-to_underlying _ h = refl

Decodes-client :
    (client : Option Bytes)
    → FitsClient client
    → Decodes
        (if is_positive 16 (client_length client) then skip (client_length client) else pure tt)
        (client_name client)
        tt
Decodes-client none h = Decodes-pure tt
Decodes-client (some []) h = Decodes-pure tt
Decodes-client (some (b ∷ bs)) h = rw positive (Decodes-skip (b ∷ bs))
  where
    positive : is_positive 16 (length (b ∷ bs)) ≡ true
    positive = ground arith

Decodes-header_tags :
    (h : RequestHeader)
    → Decodes
        (if get_request_header_version h.api h.version == 2 then read_unsigned_varint else pure 0)
        (header_tags h)
        0
Decodes-header_tags h = elim (Bool-cases (get_request_header_version h.api h.version == 2)) [
  | inl flexible ↦ rw flexible (Decodes-varint 0 (omega arith))
  | inr plain ↦ rw plain (Decodes-pure 0)
]

client_length-lt : (client : Option Bytes) → FitsClient client → client_length client < 2 ^ 16
client_length-lt none h = omega arith
client_length-lt (some name) h = omega arith

Decodes-header :
    (h : RequestHeader) (client : Option Bytes)
    → FitsHeader h
    → FitsClient client
    → Decodes deserialize_header (header_bytes h client) h
unfolding deserialize_header header_bytes
Decodes-header h client fits named =
    Decodes-bind _ _ (to_underlying h.api) (Decodes-be 2 (to_underlying h.api) fits.api) (
      rw (to_api_key-to_underlying h.api fits.key) (
        Decodes-bind _ _ h.version (Decodes-be 2 h.version fits.version) (
          Decodes-bind _ _ h.correlation_id (Decodes-be 4 h.correlation_id fits.correlation_id) (
            Decodes-bind _ _ (client_length client)
              (Decodes-be 2 (client_length client) (client_length-lt client named))
              (Decodes-bind _ _ tt (Decodes-client client named)
                (Decodes-last _ _ 0 (Decodes-header_tags h) (Decodes-pure h)))))))

-- A frame that is a header, whose fields fit their widths and whose client name is null or shorter
-- than 2 ^ 15, and a body, is read as that header and that body: the body is what follows the header,
-- to the end of the frame, which is shorter than 2 ^ 64.
pub deserialize_request-frame :
    (h : RequestHeader) (client : Option Bytes) (body : Bytes)
    → FitsHeader h
    → FitsClient client
    → length (header_bytes h client) + length body < 2 ^ 64
    → deserialize_request (header_bytes h client ++ body) 0
      ≡ ok (
        record { message_size = 0; header = h; body = body },
        length (header_bytes h client ++ body),
      )
unfolding deserialize_request read_rest
deserialize_request-frame h client body fits named small = rw (
  Decodes-start deserialize_header body (Decodes-header h client fits named) small,
  le→leb (length (header_bytes h client)) (length (header_bytes h client ++ body))
      (omega (arith, length-append (header_bytes h client) body)),
  drop-append (header_bytes h client) body,
)
