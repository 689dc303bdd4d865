-- ===== src/Tests/Wire.antt =====
-- The primitive types on the wire.
use native.Mathlib.Decide.{dec_lt}
use codecrafters_kafka_cpp.Common.{
  ℕ, ◌<◌, ◌≡◌, refl, [], ◌∷◌, ◌++◌, length, some, Bytes, be_bytes, le_bytes, negsuc, signed, ok,
  arith, ◌+◌, ◌^◌,
}
use codecrafters_kafka_cpp.Core.Wire.{
  varint_bytes, groups, string_bytes, nullable_bytes, array_bytes, items_bytes,
}
use codecrafters_kafka_cpp.Core.Reader.{
  read_unsigned_varint, read_signed_varint, read_compact_string, read_compact_array,
  deserialize_int32,
}
use codecrafters_kafka_cpp.Core.Reader.Varint.{VarintEnds, read_unsigned_varint-ends}
use codecrafters_kafka_cpp.Core.Reader.Decodes.{Decodes, Decodes-be}
use codecrafters_kafka_cpp.Core.Writer.{
  write_unsigned_varint, write_compact_string, write_nullable_compact_string, write_compact_array,
  write_be, serialize_int32, write_varint_loop, lt_wf,
}
use codecrafters_kafka_cpp.Core.Writer.Appends.{
  Appends, Appends-be, Appends-string, Appends-nullable, Appends-array,
}
use codecrafters_kafka_cpp.Core.RoundTrip.{
  ReadsBack, read-write_unsigned_varint, read-write_compact_array,
}
use codecrafters_kafka_cpp.Core.Bounds.{StringEnds, read_compact_string-ends}
use codecrafters_kafka_cpp.Core.ZigZag.{zigzag, read_signed_varint-zigzag}
use codecrafters_kafka_cpp.Tests.Data.{foo}

abbrev three_hundred : Bytes
three_hundred = 7 ∷ 172 ∷ 2 ∷ []

three_hundred_written : write_unsigned_varint 300 (7 ∷ []) ≡ three_hundred
unfolding write_unsigned_varint write_varint_loop lt_wf dec_lt
three_hundred_written = refl

read-write_unsigned_varint_example :
    ReadsBack read_unsigned_varint (write_unsigned_varint 300) 300 (7 ∷ []) (9 ∷ [])
read-write_unsigned_varint_example =
    read-write_unsigned_varint 300 (7 ∷ []) (9 ∷ []) (omega arith)
      (rw three_hundred_written (omega arith))

read_unsigned_varint-ends_example :
    VarintEnds 1 0 (172 ∷ 2 ∷ []) (read_unsigned_varint three_hundred 1)
read_unsigned_varint-ends_example = read_unsigned_varint-ends three_hundred 1

read_compact_string-ends_example :
    StringEnds (4 ∷ 102 ∷ 111 ∷ []) 0 (read_compact_string (4 ∷ 102 ∷ 111 ∷ []) 0)
read_compact_string-ends_example = read_compact_string-ends (4 ∷ 102 ∷ 111 ∷ []) 0

foo_written : write_compact_string foo (7 ∷ []) ≡ 7 ∷ 4 ∷ foo
unfolding string_bytes varint_bytes groups
foo_written = Appends-string foo (omega arith) (7 ∷ [])

nullable_foo_written : write_nullable_compact_string (some foo) (7 ∷ []) ≡ 7 ∷ 4 ∷ foo
unfolding nullable_bytes string_bytes varint_bytes groups
nullable_foo_written = Appends-nullable (some foo) (omega arith) (7 ∷ [])

port_written : write_be 4 9092 (7 ∷ []) ≡ 7 ∷ 0 ∷ 0 ∷ 35 ∷ 132 ∷ []
unfolding be_bytes le_bytes
port_written = Appends-be 4 9092 (7 ∷ [])

appended_int32 : (v : ℕ) → Appends (serialize_int32 v) (be_bytes 4 v)
unfolding serialize_int32
appended_int32 = Appends-be 4

decoded_int32 : (v : ℕ) → v < 256 ^ 4 → Decodes deserialize_int32 (be_bytes 4 v) v
unfolding deserialize_int32
decoded_int32 = Decodes-be 4

port_array_written : write_compact_array serialize_int32 (9092 ∷ []) [] ≡ 2 ∷ 0 ∷ 0 ∷ 35 ∷ 132 ∷ []
unfolding array_bytes items_bytes varint_bytes groups be_bytes le_bytes
port_array_written =
    Appends-array serialize_int32 (be_bytes 4) (9092 ∷ []) (omega arith) (appended_int32 9092, tt)
      []

read-write_compact_array_example :
    ReadsBack
      (read_compact_array deserialize_int32)
      (write_compact_array serialize_int32 (9092 ∷ []))
      (9092 ∷ [])
      []
      (9 ∷ [])
read-write_compact_array_example =
    read-write_compact_array deserialize_int32 serialize_int32 (be_bytes 4) (9092 ∷ []) [] (9 ∷ [])
      (omega arith) (appended_int32 9092, tt) (decoded_int32 9092 (omega arith), tt)
      (rw port_array_written (omega arith))

minus_two_bytes : varint_bytes (zigzag (negsuc 1)) ≡ 3 ∷ []
unfolding varint_bytes groups
minus_two_bytes = refl

read_signed_varint-zigzag_example :
    (v : ℕ) × (signed 32 v ≡ negsuc 1)
    × (read_signed_varint (7 ∷ (varint_bytes (zigzag (negsuc 1)) ++ 9 ∷ [])) 1
        ≡ ok (v, 1 + length (varint_bytes (zigzag (negsuc 1)))))
read_signed_varint-zigzag_example =
    read_signed_varint-zigzag (negsuc 1) (7 ∷ []) (9 ∷ []) (omega arith)
      (rw minus_two_bytes (omega arith))
