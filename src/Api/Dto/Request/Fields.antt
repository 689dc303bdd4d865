-- ===== src/Api/Dto/Request/Fields.antt =====
-- Whatever bytes come in, the place of each field of a request that is read from them.
use codecrafters_kafka_cpp.Common.{
  ℕ, ◌+◌, ◌^◌, ◌<◌, ◌≤◌, ◌≡◌, refl, ap, Bool-cases, inl, inr, [], ◌∷◌, Bytes, length, take, drop,
  from_le, byteswap, byteswap-lt, ltb, leb, leb→le, ◌==◌, is_positive, if◌then◌else◌, ok, arith,
}
use Prim.Native.Nat.{bit_and}
use codecrafters_kafka_cpp.Common.Returns.{
  Returns, returned, threw, broke, Returns-bind_if, Returns-elim, Returns-imp,
}
use codecrafters_kafka_cpp.Core.Reader.{
  read_be, read_span, read_unsigned_varint, varint_loop, add_group, pure, skip,
}
use codecrafters_kafka_cpp.Api.Registry.{to_api_key, get_request_header_version}
use codecrafters_kafka_cpp.Api.Dto.Request.{
  Request, RequestHeader, deserialize_header, deserialize_request, read_rest,
}

-- The big-endian number in the `n` bytes from the place `k` on.
pub field : ℕ → ℕ → Bytes → ℕ
field n k buffer = byteswap n (from_le (take n (drop k buffer)))

-- The bytes up to the first without the high bit, that one included.
varint_size : Bytes → ℕ
varint_size [] = 0
varint_size (b ∷ bs) = let rest = varint_size bs in if bit_and b 0x80 == 0 then 1 else rest + 1

-- What a client's name takes whose length field is `n`; one that is negative as an `int16_t` is null.
abbrev name_size : ℕ → ℕ
name_size n = if ltb n (2 ^ 15) then n else 0

-- The length of the client's name is in the bytes 8 and 9.
client_size : Bytes → ℕ
client_size buffer = name_size (field 2 8 buffer)

-- What the count of the tags takes, which only a header of version 2 has.
abbrev tags_size : ℕ → Bytes → ℕ
tags_size header_version rest = if header_version == 2 then varint_size rest else 0

-- The place behind the header.
pub header_size : RequestHeader → Bytes → ℕ
header_size h buffer =
    10
    + client_size buffer
    + tags_size (get_request_header_version h.api h.version) (drop (10 + client_size buffer) buffer)

-- The key, the version and the correlation identifier stand at the places 0, 2 and 4.
pub record IsHeader (buffer : Bytes) (h : RequestHeader) : Type 0 where
  pub api : h.api ≡ to_api_key (field 2 0 buffer)
  pub version : h.version ≡ field 2 2 buffer
  pub correlation_id : h.correlation_id ≡ field 4 4 buffer

read_be-field :
    (n : ℕ) (buffer : Bytes) (k offset : ℕ)
    → offset ≡ k
    → Returns
        (λ (v, o). (v ≡ field n k buffer) × (o ≡ k + n) × (v < 256 ^ n))
        (read_be n buffer offset)
unfolding read_be read_span field
read_be-field n buffer k offset at = elim (Bool-cases (leb (k + n) (length buffer))) [
  | inl inside ↦ rw at (rw inside (returned _ (refl, refl, byteswap-lt n _)))
  | inr outside ↦ rw at (rw outside broke)
]

varint_loop-size :
    (bytes : Bytes) (value shift offset : ℕ)
    → Returns (λ (v, o). o ≡ offset + varint_size bytes) (varint_loop bytes value shift offset)
unfolding varint_loop varint_size
varint_loop-size [] value shift offset = threw _
varint_loop-size (b ∷ bs) value shift offset = elim (Bool-cases (bit_and b 0x80 == 0)) [
  | inl last ↦ rw last (returned _ refl)
  | inr more ↦ rw more (elim (Bool-cases (leb 32 (shift + 7))) [
    | inl full ↦ rw full (threw _)
    | inr room ↦ rw room (
        Returns-imp (λ (v, o) e. omega (arith, e))
          (varint_loop-size bs (add_group value b shift) (shift + 7) (offset + 1)))
  ])
]

name-size :
    (n : ℕ) (buffer : Bytes) (offset : ℕ)
    → n < 2 ^ 16
    → offset ≡ 10
    → Returns
        (λ (u, o). o ≡ 10 + name_size n)
        ((if is_positive 16 n then skip n else pure tt) buffer offset)
unfolding skip
name-size n buffer offset h small = elim (Bool-cases (is_positive 16 n)) [
  | inl named ↦ rw named (returned _ (ground arith))
  | inr null ↦ rw null (returned _ (ground arith))
]

tags-size :
    (version : ℕ) (buffer : Bytes) (offset : ℕ)
    → Returns
        (λ (u, o). o ≡ offset + tags_size version (drop offset buffer))
        ((if version == 2 then read_unsigned_varint else pure 0) buffer offset)
unfolding read_unsigned_varint
tags-size version buffer offset = elim (Bool-cases (version == 2)) [
  | inl flexible ↦ rw flexible (varint_loop-size (drop offset buffer) 0 0 offset)
  | inr plain ↦ rw plain (returned _ (omega arith))
]

-- The place behind the header from the steps of the reader.
behind-header :
    (h : RequestHeader) (buffer : Bytes) (n e place : ℕ)
    → n ≡ field 2 8 buffer
    → e ≡ 10 + name_size n
    → place ≡ e + tags_size (get_request_header_version h.api h.version) (drop e buffer)
    → place ≡ header_size h buffer
unfolding header_size client_size
behind-header h buffer n e place at_length at_tags at_end = rw (at_end, at_tags, at_length) refl

deserialize_header-IsHeader :
    (buffer : Bytes)
    → Returns
        (λ (h, o). IsHeader buffer h × (o ≡ header_size h buffer))
        (deserialize_header buffer 0)
unfolding deserialize_header
deserialize_header-IsHeader buffer =
    Returns-bind_if _ _ (read_be 2 buffer 0) _ (read_be-field 2 buffer 0 0 refl)
      (λ (raw, a) (api, at2, s).
        Returns-bind_if _ _ (read_be 2 buffer a) _ (read_be-field 2 buffer 2 a at2)
          (λ (version, b) (at_version, at4, t).
            Returns-bind_if _ _ (read_be 4 buffer b) _ (read_be-field 4 buffer 4 b at4)
              (λ (id, c) (at_id, at8, u).
                Returns-bind_if _ _ (read_be 2 buffer c) _ (read_be-field 2 buffer 8 c at8)
                  (λ (n, d) (at_length, at10, v).
                    Returns-bind_if _ _ _ _ (name-size n buffer d (omega (arith, v)) at10)
                      (λ (w, e) at_tags.
                        Returns-bind_if _ _ _ _
                          (tags-size (get_request_header_version (to_api_key raw) version) buffer e)
                          (λ (tags, f) at_end. returned _ (
                            record {
                              api = ap to_api_key api;
                              version = at_version;
                              correlation_id = at_id;
                            },
                            behind-header _ buffer n e f at_length at_tags at_end,
                          )))))))

read_rest-drop :
    (buffer : Bytes) (offset : ℕ)
    → Returns
        (λ (body, o). (offset ≤ length buffer) × (body ≡ drop offset buffer) × (o ≡ length buffer))
        (read_rest buffer offset)
unfolding read_rest
read_rest-drop buffer offset = elim (Bool-cases (leb offset (length buffer))) [
  | inl inside ↦ rw inside (returned _ (leb→le offset (length buffer) inside, refl, refl))
  | inr outside ↦ rw outside broke
]

abbrev IsRequest : Bytes → Request × ℕ → Type 0
IsRequest buffer (request, o) =
    IsHeader buffer request.header
    × (header_size request.header buffer ≤ length buffer)
    × (request.body ≡ drop (header_size request.header buffer) buffer)
    × (o ≡ length buffer)

-- Whatever bytes a frame has, of a request that is read from it the key, the version and the
-- correlation identifier are the numbers at the places 0, 2 and 4. The body is the whole frame behind
-- the header, where the header takes ten bytes; the client's name, whose length is at the place 8 and
-- which takes nothing where that is negative; and, where its version is 2, the count of the tags, up to
-- the first byte without the high bit. The frame is used up.
pub deserialize_request-IsHeader :
    (buffer : Bytes) (request : Request) (offset : ℕ)
    → deserialize_request buffer 0 ≡ ok (request, offset)
    → IsHeader buffer request.header
      × (header_size request.header buffer ≤ length buffer)
      × (request.body ≡ drop (header_size request.header buffer) buffer)
      × (offset ≡ length buffer)
unfolding deserialize_request
deserialize_request-IsHeader buffer request offset e =
    Returns-elim (IsRequest buffer) _ (request, offset)
      (Returns-bind_if (λ (h, o). IsHeader buffer h × (o ≡ header_size h buffer)) (IsRequest buffer)
        (deserialize_header buffer 0) _ (deserialize_header-IsHeader buffer)
        (λ (h, k) (fits, behind).
          Returns-bind_if _ (IsRequest buffer) (read_rest buffer k) _ (read_rest-drop buffer k)
            (λ (body, o) (within, tail, used).
              returned _ (fits, rw behind at within, rw behind at tail, used))))
      e
