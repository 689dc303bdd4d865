-- ===== src/Metadata/Parser/Batches.antt =====
-- The metadata log as a row of record batches, and the cache that the broker makes of it.
use codecrafters_kafka_cpp.Common.{
  ℕ, zero, suc, ◌+◌, ◌%◌, ◌^◌, ◌≤◌, ◌<◌, ◌≡◌, refl, ap, List, [], ◌∷◌, ◌++◌, append_assoc, length,
  length-append, All, false, Bool-cases, inl, inr, some, Bytes, be_bytes, length-be_bytes, ltb,
  to_size, lt→ltb, ok, arith,
}
use codecrafters_kafka_cpp.Core.Wire.{items_bytes}
use codecrafters_kafka_cpp.Core.Reader.{skip}
use codecrafters_kafka_cpp.Core.Reader.Decodes.{Decodes, Decodes-be, Decodes-skip}
use codecrafters_kafka_cpp.Metadata.Cache.{MetadataCache, empty_cache}
use codecrafters_kafka_cpp.Metadata.Parser.{
  rounds_of, parse_records, parse_batch, parse_batches, parse_log_file,
}
use codecrafters_kafka_cpp.Metadata.Parser.Places.{
  DecodesAt, DecodesAt-tell, DecodesAt-pure, DecodesAt-seek, DecodesAt-bind, DecodesAt-then,
  DecodesAt-last,
}
use codecrafters_kafka_cpp.Metadata.Parser.Records.{
  Record, record_bytes, FitsRecord, add_entry, DecodesAt-record,
}

-- Behind its length a batch has 45 bytes that the broker passes over, and then its records.
pub record RecordBatch : Type 0 where
  pub base_offset : ℕ
  pub passed_over : Bytes
  pub records : List Record

unfoldable pub record_batch_bytes : RecordBatch → Bytes
record_batch_bytes b =
    be_bytes 8 b.base_offset
    ++ (be_bytes 4 (49 + length (items_bytes record_bytes b.records))
        ++ (b.passed_over ++ (be_bytes 4 (length b.records) ++ items_bytes record_bytes b.records)))

pub record FitsRecordBatch (b : RecordBatch) : Type 0 where
  pub passed_over : length b.passed_over ≡ 45
  pub count : length b.records < 2 ^ 31
  pub size : 49 + length (items_bytes record_bytes b.records) < 2 ^ 31
  pub records : All FitsRecord b.records

abbrev pub add_records : List Record → MetadataCache → MetadataCache
add_records [] cache = cache
add_records (r ∷ rs) cache = add_records rs (add_entry r.entry cache)

abbrev pub add_batches : List RecordBatch → MetadataCache → MetadataCache
add_batches [] cache = cache
add_batches (b ∷ bs) cache = add_batches bs (add_records b.records cache)

unfoldable pub metadata_log : List RecordBatch → Bytes
metadata_log [] = []
metadata_log (b ∷ bs) = record_batch_bytes b ++ metadata_log bs

DecodesAt-records :
    (rs : List Record) (cache : MetadataCache) (place : ℕ)
    → All FitsRecord rs
    → DecodesAt
        (parse_records (length rs) cache)
        place
        (items_bytes record_bytes rs)
        (add_records rs cache)
unfolding parse_records items_bytes
DecodesAt-records [] cache place h = DecodesAt-pure cache place
DecodesAt-records (r ∷ rs) cache place h =
    DecodesAt-bind _ _ place (add_entry r.entry cache) (DecodesAt-record r cache place h.0)
      (DecodesAt-records rs (add_entry r.entry cache) _ h.1)

rounds_of_small : (n : ℕ) → n < 2 ^ 31 → rounds_of n ≡ n
rounds_of_small n h = ground arith

Decodes-eight : (v : ℕ) → Decodes (skip 8) (be_bytes 8 v) tt
Decodes-eight v = rw (length-be_bytes 8 v) at (Decodes-skip (be_bytes 8 v))

to_size_lem : (n : ℕ) → n < 2 ^ 31 → to_size n ≡ n
to_size_lem n h = ground arith

DecodesAt-record_batch :
    (b : RecordBatch) (cache : MetadataCache) (place : ℕ)
    → FitsRecordBatch b
    → DecodesAt (parse_batch cache) place (record_batch_bytes b) (add_records b.records cache)
unfolding parse_batch record_batch_bytes
DecodesAt-record_batch b cache place h =
    let records = items_bytes record_bytes b.records in
    let base = length-be_bytes 8 b.base_offset in
    let sized = length-be_bytes 4 (49 + length records) in
    let counted = length-be_bytes 4 (length b.records) in
    let whole = add_records b.records cache in
    DecodesAt-bind _ _ place place (DecodesAt-tell place) (
      DecodesAt-then _ _ _ tt (Decodes-eight b.base_offset) (
        DecodesAt-then _ _ _ (49 + length records)
          (Decodes-be 4 (49 + length records) (omega (arith, h.size)))
          (DecodesAt-bind _ _ _ tt
            (DecodesAt-seek _ _ b.passed_over
              (ap (λ (n : ℕ). n % 2 ^ 64) (omega (arith, base, sized, h.passed_over))))
            (DecodesAt-then _ _ _ (length b.records)
              (Decodes-be 4 (length b.records) (omega (arith, h.count)))
              (rw (rounds_of_small (length b.records) h.count) (
                DecodesAt-last _ _ _ whole (DecodesAt-records b.records cache _ h.records) (
                  DecodesAt-bind _ _ _ tt
                    (DecodesAt-seek _ _ [] (
                      rw (to_size_lem (49 + length records) h.size) (
                        ap (λ (n : ℕ). n % 2 ^ 64)
                          (omega (arith, base, sized, counted, h.passed_over)))))
                    (DecodesAt-pure whole _))))))))

length-record_batch_bytes :
    (b : RecordBatch)
    → FitsRecordBatch b
    → length (record_batch_bytes b) ≡ 61 + length (items_bytes record_bytes b.records)
unfolding record_batch_bytes
length-record_batch_bytes b h =
    let records = items_bytes record_bytes b.records in
    let counted = be_bytes 4 (length b.records) ++ records in
    let sized = be_bytes 4 (49 + length records) in
    omega (
      arith,
      h.passed_over,
      length-be_bytes 8 b.base_offset,
      length-be_bytes 4 (49 + length records),
      length-be_bytes 4 (length b.records),
      length-append (be_bytes 8 b.base_offset) (sized ++ (b.passed_over ++ counted)),
      length-append sized (b.passed_over ++ counted),
      length-append b.passed_over counted,
      length-append (be_bytes 4 (length b.records)) records,
    )

parse_batches-metadata_log :
    (bs : List RecordBatch) (cache : MetadataCache) (before tail : Bytes) (fuel : ℕ)
    → All FitsRecordBatch bs
    → length tail < 12
    → length before + length (metadata_log bs ++ tail) < 2 ^ 63
    → length bs < fuel
    → parse_batches fuel cache (before ++ (metadata_log bs ++ tail)) (length before)
      ≡ ok (add_batches bs cache)
unfolding parse_batches metadata_log
parse_batches-metadata_log bs cache before tail zero h short small f = absurd (omega arith)
parse_batches-metadata_log [] cache before tail (suc fuel) h short small f =
    elim (Bool-cases (ltb (length before) (length (before ++ tail)))) [
      | inl more ↦ rw (
        more,
        lt→ltb (length (before ++ tail)) (length before + 12)
            (omega (arith, length-append before tail)),
      )
      | inr done ↦ rw done
    ]
parse_batches-metadata_log (b ∷ bs) cache before tail (suc fuel) h short small f =
    let after = metadata_log bs ++ tail in
    let batch = record_batch_bytes b in
    let size = length-record_batch_bytes b h.0 in
    let split = append_assoc batch (metadata_log bs) tail in
    let sum = length-append before (batch ++ after) in
    let part = length-append batch after in
    let total : length ((batch ++ metadata_log bs) ++ tail) ≡ length (batch ++ after) =
      ap (λ (x : Bytes). length x) split in
    rw
      (
        split,
        (DecodesAt-record_batch b cache (length before) h.0).run before after refl
            (omega (arith, part, total)),
        lt→ltb (length before) (length (before ++ (batch ++ after)))
            (omega (arith, sum, part, size)),
        long_enough (length (before ++ (batch ++ after))) (length before)
            (omega (arith, sum, part, size)),
      )
      (rw (append_assoc before batch after, length-append before batch) at
        (parse_batches-metadata_log bs (add_records b.records cache) (before ++ batch) tail fuel h.1
          short (omega (arith, part, total, length-append before batch)) (omega arith)))
  where
    long_enough : (n m : ℕ) → m + 12 ≤ n → ltb n (m + 12) ≡ false
    long_enough n m h = ground arith

length-metadata_log :
    (bs : List RecordBatch) → All FitsRecordBatch bs → length bs ≤ length (metadata_log bs)
unfolding metadata_log
length-metadata_log [] h = omega arith
length-metadata_log (b ∷ bs) h = omega (
  arith,
  length-append (record_batch_bytes b) (metadata_log bs),
  length-record_batch_bytes b h.0,
  length-metadata_log bs h.1,
)

-- Of a metadata log shorter than 2 ^ 63 that is a row of batches of records, with fewer than twelve
-- bytes behind it, `parse_log_file` makes the cache that has the topics and partitions of the records
-- added one by one in their order; records of other types, the fields that the broker does not know
-- and the headers of the records change nothing.
pub parse_log_file-metadata_log :
    (bs : List RecordBatch) (tail : Bytes)
    → All FitsRecordBatch bs
    → length tail < 12
    → length (metadata_log bs ++ tail) < 2 ^ 63
    → parse_log_file (some (metadata_log bs ++ tail)) ≡ ok (add_batches bs empty_cache)
unfolding parse_log_file
parse_log_file-metadata_log bs tail h short small =
    parse_batches-metadata_log bs empty_cache [] tail (length (metadata_log bs ++ tail) + 1) h short
      (omega arith) (omega (arith, length-append (metadata_log bs) tail, length-metadata_log bs h))
