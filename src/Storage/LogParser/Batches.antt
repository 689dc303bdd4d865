-- ===== src/Storage/LogParser/Batches.antt =====
-- What `extract_records_from_offset` returns of a log that is a row of record batches, the last of
-- which may be cut off.
use codecrafters_kafka_cpp.Common.{
  le→ltb_false, ℕ, ◌+◌, ◌-◌, ◌%◌, ◌^◌, ◌<◌, ◌≡◌, ap, ◌∙◌, inl, inr, List, [], ◌∷◌, ◌++◌,
  append_assoc, length, length-append, take-append, drop-append, false, Bool-cases, Bytes, be_bytes,
  length-be_bytes, ltb, le→leb, if◌then◌else◌, ok, arith,
}
use codecrafters_kafka_cpp.Core.Reader.{read_be}
use codecrafters_kafka_cpp.Core.Reader.Decodes.{Decodes-be}
use codecrafters_kafka_cpp.Storage.LogParser.{
  is_wanted, total_batch_size, insert_batch, extract_batch,
}

-- A batch is its base offset, the length of what follows, and that.
pub record Batch : Type 0 where
  pub base_offset : ℕ
  pub payload : Bytes

unfoldable pub batch_bytes : Batch → Bytes
batch_bytes b = be_bytes 8 b.base_offset ++ (be_bytes 4 (length b.payload) ++ b.payload)

unfoldable pub log_of : List Batch → Bytes
log_of [] = []
log_of (b ∷ bs) = batch_bytes b ++ log_of bs

pub record IsBatch (b : Batch) : Type 0 where
  pub base_offset : b.base_offset < 2 ^ 64
  pub payload : length b.payload + 12 < 2 ^ 31

pub length-batch_bytes : (b : Batch) → length (batch_bytes b) ≡ length b.payload + 12
unfolding batch_bytes
length-batch_bytes b = omega (
  arith,
  length-append (be_bytes 8 b.base_offset) (be_bytes 4 (length b.payload) ++ b.payload),
  length-append (be_bytes 4 (length b.payload)) b.payload,
  length-be_bytes 8 b.base_offset,
  length-be_bytes 4 (length b.payload),
)

pub total_batch_size_lem : (n : ℕ) → n + 12 < 2 ^ 31 → total_batch_size n ≡ ok (n + 12)
unfolding total_batch_size
total_batch_size_lem n h = ground arith

module _ (before after : Bytes) (base len : ℕ) (base_fits : base < 2 ^ 64) (len_fits : len < 2 ^ 32)
    (small : length before + length after + 12 < 2 ^ 63) where
  abbrev with_header : Bytes
  with_header = before ++ (be_bytes 8 base ++ (be_bytes 4 len ++ after))

  pub read_base_offset : read_be 8 with_header (length before) ≡ ok (base, length before + 8)
  read_base_offset = rw (length-be_bytes 8 base) at (
      (Decodes-be 8 base base_fits).run before (be_bytes 4 len ++ after) (
        omega (
          arith,
          length-be_bytes 8 base,
          length-append (be_bytes 4 len) after,
          length-be_bytes 4 len,
        )))

  pub read_batch_length : read_be 4 with_header (length before + 8) ≡ ok (len, length before + 12)
  read_batch_length =
      let at_length = (Decodes-be 4 len len_fits).run (before ++ be_bytes 8 base) after (
        omega (
          arith,
          length-append before (be_bytes 8 base),
          length-be_bytes 8 base,
          length-be_bytes 4 len,
        )) in
      let moved : read_be 4 with_header (length before + 8) ≡ ok (len, length before + 8 + 4) =
        rw
          (
            append_assoc before (be_bytes 8 base) (be_bytes 4 len ++ after),
            length-append before (be_bytes 8 base),
            length-be_bytes 8 base,
            length-be_bytes 4 len,
          )
          at at_length in
      moved ∙ ap (λ (n : ℕ). ok (len, n)) {x = length before + 8 + 4} (omega arith)

batch_bytes-append :
    (b : Batch) (after : Bytes)
    → batch_bytes b ++ after
      ≡ be_bytes 8 b.base_offset ++ (be_bytes 4 (length b.payload) ++ (b.payload ++ after))
unfolding batch_bytes
batch_bytes-append b after = simp append_assoc

-- The result after a batch.
abbrev pub collect : ℕ → Bytes → Batch → Bytes
collect target result b =
    if is_wanted b.base_offset target result then result ++ batch_bytes b else result

module _ (target : ℕ) (b : Batch) (is : IsBatch b) (before after : Bytes)
    (small : length before + length (batch_bytes b) + length after < 2 ^ 63) where
  insert_batch_lem :
      (result : Bytes)
      → insert_batch
          (before ++ (batch_bytes b ++ after))
          (length before)
          (length b.payload + 12)
          result
        ≡ ok (result ++ batch_bytes b)
  unfolding insert_batch
  insert_batch_lem result = rw (
    le→leb (length b.payload + 12) (length (before ++ (batch_bytes b ++ after)) - length before) (
        omega (
          arith,
          length-batch_bytes b,
          length-append before (batch_bytes b ++ after),
          length-append (batch_bytes b) after,
        )),
    drop-append before (batch_bytes b ++ after),
    ← length-batch_bytes b,
    take-append (batch_bytes b) after,
  )

  pub extract_batch_lem :
      (result : Bytes)
      → extract_batch (before ++ (batch_bytes b ++ after)) target (length before) result
        ≡ ok (record {
          stop = false;
          current_pos = length before + length (batch_bytes b);
          result = collect target result b;
        })
  unfolding extract_batch
  extract_batch_lem result =
      rw
        (
          base_at,
          length_at,
          total_batch_size_lem (length b.payload) is.payload,
          next_at,
          lt→ltb_false,
        )
        (elim (Bool-cases (is_wanted b.base_offset target result)) [
          | inl wanted ↦ rw (wanted, insert_batch_lem result)
          | inr unwanted ↦ rw unwanted
        ])
    where
      base_at :
          read_be 8 (before ++ (batch_bytes b ++ after)) (length before)
          ≡ ok (b.base_offset, length before + 8)
      base_at = rw (batch_bytes-append b after) (
          read_base_offset before (b.payload ++ after) b.base_offset (length b.payload)
            is.base_offset (omega arith)
            (omega (arith, length-append b.payload after, length-batch_bytes b)))

      length_at :
          read_be 4 (before ++ (batch_bytes b ++ after)) (length before + 8)
          ≡ ok (length b.payload, length before + 12)
      length_at = rw (batch_bytes-append b after) (
          read_batch_length before (b.payload ++ after) b.base_offset (length b.payload)
            is.base_offset (omega arith)
            (omega (arith, length-append b.payload after, length-batch_bytes b)))

      next_at :
          (length before + (length b.payload + 12)) % 2 ^ 64
          ≡ length before + length (batch_bytes b)
      next_at = omega (arith, length-batch_bytes b)

      lt→ltb_false :
          ltb (length (before ++ (batch_bytes b ++ after))) (length before + length (batch_bytes b))
          ≡ false
      lt→ltb_false = le→ltb_false _ _ (
          omega (
            arith,
            length-append before (batch_bytes b ++ after),
            length-append (batch_bytes b) after,
          ))
