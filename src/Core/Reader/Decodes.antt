-- ===== src/Core/Reader/Decodes.antt =====
-- What it means that a reader decodes a run of bytes, and the rules by which readers compose.
use codecrafters_kafka_cpp.Common.{
  ℕ, ◌+◌, ◌^◌, ◌<◌, ◌≡◌, ap, ◌∙◌, [], ◌++◌, append_assoc, append-nil, length, length-append,
  take-append, drop-append, Bytes, from_le, byteswap, be_bytes, length-be_bytes, byteswap-from_le,
  le→leb, ok, arith,
}
use codecrafters_kafka_cpp.Core.Reader.{
  Reader, pure, ◌>>=◌, skip, read_span, read_be, read_unsigned_varint,
}
use codecrafters_kafka_cpp.Core.Reader.Varint.{varint_loop-varint_bytes}
use codecrafters_kafka_cpp.Core.Wire.{varint_bytes}

-- Wherever `bytes` stands in a span, the reader takes all of it, returns `a` and leaves the offset
-- at the byte that follows.
pub record Decodes {A : Type 0} (r : Reader A) (bytes : Bytes) (a : A) : Type 0 where
  pub run :
      (before after : Bytes)
      → length before + length bytes + length after < 2 ^ 64
      → r (before ++ (bytes ++ after)) (length before) ≡ ok (a, length before + length bytes)

module _ {A : Type 0} where
  pub Decodes-pure : (a : A) → Decodes (pure a) [] a
  Decodes-pure a = record { run = λ before after h. ap (λ (n : ℕ). ok (a, n)) (omega arith) }

module _ {A B : Type 0} (m : Reader A) (f : A → Reader B) (a : A) {b : B} where
  bind-second :
      (xs ys before after : Bytes)
      → Decodes (f a) ys b
      → length before + length (xs ++ ys) + length after < 2 ^ 64
      → f a (before ++ ((xs ++ ys) ++ after)) (length before + length xs)
        ≡ ok (b, length before + length (xs ++ ys))
  bind-second xs ys before after e h =
      let at_end =
        e.run (before ++ xs) after (omega (arith, length-append before xs, length-append xs ys)) in
      let second : f a (before ++ (xs ++ (ys ++ after))) (length before + length xs)
          ≡ ok (b, length before + length xs + length ys) =
        rw (append_assoc before xs (ys ++ after), length-append before xs) at at_end in
      let sum : length before + length xs + length ys ≡ length before + length (xs ++ ys) =
        omega (arith, length-append xs ys) in
      rw (append_assoc xs ys after) (second ∙ ap (λ (n : ℕ). ok (b, n)) sum)

  -- The bytes of the first reader, and then those of the reader that follows.
  pub Decodes-bind :
      {xs ys : Bytes} → Decodes m xs a → Decodes (f a) ys b → Decodes (m >>= f) (xs ++ ys) b
  Decodes-bind {xs} {ys} d e = record {
    run = λ before after h.
        let first : m (before ++ ((xs ++ ys) ++ after)) (length before)
            ≡ ok (a, length before + length xs) =
          rw (append_assoc xs ys after) (
            d.run before (ys ++ after)
              (omega (arith, length-append xs ys, length-append ys after))) in
        rw first (bind-second xs ys before after e h);
  }

-- A block whose last step returns a value.
pub Decodes-last :
    {A B : Type 0} (m : Reader A) (f : A → Reader B) {xs : Bytes} (a : A) {b : B}
    → Decodes m xs a
    → Decodes (f a) [] b
    → Decodes (m >>= f) xs b
Decodes-last m f {xs} a d e = rw append-nil at (Decodes-bind m f a d e)

-- The readers of primitive types on what stands for a value.
pub Decodes-span : (bytes : Bytes) → Decodes (read_span (length bytes)) bytes bytes
unfolding read_span
Decodes-span bytes = record {
  run = λ before after h. rw (
    le→leb (length before + length bytes) (length (before ++ (bytes ++ after)))
        (omega (arith, length-append before (bytes ++ after), length-append bytes after)),
    drop-append before (bytes ++ after),
    take-append bytes after,
  );
}

pub Decodes-be : (n v : ℕ) → v < 256 ^ n → Decodes (read_be n) (be_bytes n v) v
unfolding read_be
Decodes-be n v h =
    Decodes-last (read_span n) (λ bytes. pure (byteswap n (from_le bytes))) (be_bytes n v)
      (rw (length-be_bytes n v) at (Decodes-span (be_bytes n v)))
      (rw (byteswap-from_le n v h) (Decodes-pure v))

pub Decodes-varint : (v : ℕ) → v < 2 ^ 32 → Decodes read_unsigned_varint (varint_bytes v) v
unfolding read_unsigned_varint
Decodes-varint v h = record {
  run = λ before after _.
      rw (drop-append before (varint_bytes v ++ after))
        (varint_loop-varint_bytes v (length before) after h);
}

pub Decodes-skip : (bytes : Bytes) → Decodes (skip (length bytes)) bytes tt
unfolding skip
Decodes-skip bytes = record { run = λ before after h. ap (λ (n : ℕ). ok (tt, n)) (omega arith) }

-- At the start of a span.
pub Decodes-start :
    {A : Type 0} (r : Reader A) {bytes : Bytes} {a : A} (rest : Bytes)
    → Decodes r bytes a
    → length bytes + length rest < 2 ^ 64
    → r (bytes ++ rest) 0 ≡ ok (a, length bytes)
Decodes-start r {bytes} {a} rest d h =
    d.run [] rest (omega arith) ∙ ap (λ (n : ℕ). ok (a, n)) {x = 0 + length bytes} (omega arith)
