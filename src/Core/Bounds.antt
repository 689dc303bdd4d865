-- ===== src/Core/Bounds.antt =====
-- src/core/reader.cpp on any input: which reads stay inside the span.
use codecrafters_kafka_cpp.Common.{
  ℕ, ◌+◌, ◌-◌, ◌≤◌, ◌<◌, ◌≡◌, refl, inl, inr, [], length, take, drop, length-drop, length-take,
  Bytes, leb, ◌==◌, Bool-cases, if◌then◌else◌, Outcome, ok, throws, undefined, Exception,
  runtime_error, out_of_range, bind, arith,
}
use codecrafters_kafka_cpp.Core.Reader.{pure, read_span, read_unsigned_varint, read_compact_string}
use codecrafters_kafka_cpp.Core.Reader.Varint.{
  VarintEnds, value, malformed, ended, read_unsigned_varint-ends,
}

-- How the read of a string can end at `offset`: by a string that lies in the span behind its
-- length; by an exception of the length's varint; or, where the length `n` that stands there passes
-- the end of the span, by undefined behaviour.
pub data StringEnds (buffer : Bytes) (offset : ℕ) : Outcome (Bytes × ℕ) → Type 0 where
  in_span :
      (text : Bytes) (o : ℕ)
      → offset + length text < o
      → o ≤ length buffer
      → StringEnds buffer offset (ok (text, o))
  bad_length : (e : Exception) → StringEnds buffer offset (throws e)
  past_end :
      (n o : ℕ)
      → read_unsigned_varint buffer offset ≡ ok (n, o)
      → length buffer < o + (n - 1)
      → StringEnds buffer offset undefined

string_after_length :
    (buffer : Bytes) (offset n o : ℕ)
    → read_unsigned_varint buffer offset ≡ ok (n, o)
    → offset < o
    → o ≤ length buffer
    → StringEnds buffer offset ((if n == 0 then pure [] else read_span (n - 1)) buffer o)
unfolding read_span
string_after_length buffer offset n o e lo hi = elim (Bool-cases (n == 0)) [
  | inl null ↦ rw null (in_span [] o (omega arith) hi)
  | inr more ↦ rw more (elim (Bool-cases (leb (o + (n - 1)) (length buffer))) [
    | inl fits ↦ rw fits (
        in_span (take (n - 1) (drop o buffer)) (o + (n - 1))
          (omega (arith, lo, length-take (n - 1) (drop o buffer))) (ground arith))
    | inr past ↦ rw past (past_end n o e (ground arith))
  ])
]

string_of_varint :
    (buffer : Bytes) (offset : ℕ) (r : Outcome (ℕ × ℕ))
    → read_unsigned_varint buffer offset ≡ r
    → VarintEnds offset 0 (drop offset buffer) r
    → StringEnds buffer offset
        (bind r λ (n, o). (if n == 0 then pure [] else read_span (n - 1)) buffer o)
string_of_varint buffer offset _ e (value n o h1 h2 h3 h4) =
    string_after_length buffer offset n o e h2 (omega (arith, length-drop offset buffer))
string_of_varint buffer offset _ e (malformed h) = bad_length runtime_error
string_of_varint buffer offset _ e (ended h) = bad_length out_of_range

-- `read_compact_string` on any span and at any offset ends in one of three ways: by a string that,
-- with the offset left, lies in the span; by an exception; or by undefined behaviour, and then only
-- where the length that stands there passes the end of the span.
pub read_compact_string-ends :
    (buffer : Bytes) (offset : ℕ) → StringEnds buffer offset (read_compact_string buffer offset)
unfolding read_compact_string
read_compact_string-ends buffer offset =
    string_of_varint buffer offset (read_unsigned_varint buffer offset) refl
      (read_unsigned_varint-ends buffer offset)
