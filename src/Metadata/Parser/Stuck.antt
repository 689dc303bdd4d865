-- ===== src/Metadata/Parser/Stuck.antt =====
-- A batch length of -12 in the metadata log.
use codecrafters_kafka_cpp.Common.{
  le→ltb_false, ℕ, zero, suc, ◌+◌, ◌-◌, ◌%◌, ◌^◌, ◌<◌, ◌≡◌, refl, ap, ◌++◌, append_assoc, length,
  length-append, Bytes, be_bytes, length-be_bytes, lt→ltb, Outcome, ok, out_of_fuel, arith,
}
use codecrafters_kafka_cpp.Core.Reader.{skip, read_be}
use codecrafters_kafka_cpp.Core.Reader.Decodes.{Decodes-be}
use codecrafters_kafka_cpp.Metadata.Cache.{MetadataCache}
use codecrafters_kafka_cpp.Metadata.Parser.{tell, seek, parse_records, parse_batch, parse_batches}

read_at :
    (n v place : ℕ) (buffer front back : Bytes)
    → v < 256 ^ n
    → length buffer < 2 ^ 64
    → front ++ (be_bytes n v ++ back) ≡ buffer
    → length front ≡ place
    → read_be n buffer place ≡ ok (v, place + n)
read_at n v place buffer front back fits small same at =
    rw (same, at, length-be_bytes n v) at
      ((Decodes-be n v fits).run front back (
        omega (
          arith,
          ap (λ (b : Bytes). length b) same,
          length-append front (be_bytes n v ++ back),
          length-append (be_bytes n v) back,
        )))

-- A batch header with that length, what the parser passes over, and a count of no records.
abbrev pub stuck_batch : ℕ → Bytes → Bytes → Bytes
stuck_batch base passed_over after =
    be_bytes 8 base ++ (be_bytes 4 (2 ^ 32 - 12) ++ (passed_over ++ (be_bytes 4 0 ++ after)))

length-stuck_batch :
    (base : ℕ) (passed_over after : Bytes)
    → length (stuck_batch base passed_over after) ≡ 16 + length passed_over + length after
length-stuck_batch base passed_over after = omega (
  arith,
  length-append (be_bytes 8 base)
      (be_bytes 4 (2 ^ 32 - 12) ++ (passed_over ++ (be_bytes 4 0 ++ after))),
  length-append (be_bytes 4 (2 ^ 32 - 12)) (passed_over ++ (be_bytes 4 0 ++ after)),
  length-append passed_over (be_bytes 4 0 ++ after),
  length-append (be_bytes 4 0) after,
  length-be_bytes 8 base,
  length-be_bytes 4 (2 ^ 32 - 12),
  length-be_bytes 4 0,
)

module _ (base : ℕ) (before passed_over after : Bytes) (passed : length passed_over ≡ 45)
    (small : length before + length after + 61 < 2 ^ 63) (cache : MetadataCache) where
  abbrev log : Bytes
  log = before ++ stuck_batch base passed_over after

  log_size : length log ≡ length before + 61 + length after
  log_size = omega (
    arith,
    passed,
    length-append before (stuck_batch base passed_over after),
    length-stuck_batch base passed_over after,
  )

  length_at : read_be 4 log (length before + 8) ≡ ok (2 ^ 32 - 12, length before + 8 + 4)
  length_at =
      read_at 4 (2 ^ 32 - 12) (length before + 8) log (before ++ be_bytes 8 base)
        (passed_over ++ (be_bytes 4 0 ++ after)) (omega arith) (omega (arith, log_size, small))
        (append_assoc before (be_bytes 8 base) _)
        (omega (arith, length-append before (be_bytes 8 base), length-be_bytes 8 base))

  count_at : read_be 4 log (length before + 57) ≡ ok (0, length before + 57 + 4)
  count_at =
      read_at 4 0 (length before + 57) log
        ((before ++ be_bytes 8 base) ++ (be_bytes 4 (2 ^ 32 - 12) ++ passed_over)) after
        (omega arith) (omega (arith, log_size, small))
        (rw
          (
            append_assoc before (be_bytes 8 base) (be_bytes 4 (2 ^ 32 - 12) ++ passed_over),
            append_assoc before (be_bytes 8 base ++ (be_bytes 4 (2 ^ 32 - 12) ++ passed_over))
                (be_bytes 4 0 ++ after),
            append_assoc (be_bytes 8 base) (be_bytes 4 (2 ^ 32 - 12) ++ passed_over)
                (be_bytes 4 0 ++ after),
            append_assoc (be_bytes 4 (2 ^ 32 - 12)) passed_over (be_bytes 4 0 ++ after),
          )
          refl)
        (omega (
          arith,
          passed,
          length-append (before ++ be_bytes 8 base) (be_bytes 4 (2 ^ 32 - 12) ++ passed_over),
          length-append before (be_bytes 8 base),
          length-append (be_bytes 4 (2 ^ 32 - 12)) passed_over,
          length-be_bytes 8 base,
          length-be_bytes 4 (2 ^ 32 - 12),
        ))

  abbrev back_at : ℕ → Outcome (MetadataCache × ℕ)
  back_at n = ok (cache, n)

  -- The round ends where it has begun.
  stays : parse_batch cache log (length before) ≡ ok (cache, length before)
  unfolding parse_batch tell seek skip parse_records
  stays =
      let first : (length before + 8) % 2 ^ 64 ≡ length before + 8 = omega (arith, small) in
      let second : (length before + 57) % 2 ^ 64 ≡ length before + 57 = omega (arith, small) in
      rw (first, length_at, second, count_at) (ap (λ (n : ℕ). back_at n) (omega (arith, small)))

-- Where the parser of the metadata log comes to a batch whose length is -12 and whose record count is 0,
-- it stays there: no number of rounds is enough, whatever stands in the log, which is shorter than
-- 2 ^ 63, in front of that batch and behind its count.
pub parse_batches_never_ends :
    (base : ℕ) (before passed_over after : Bytes) (cache : MetadataCache) (fuel : ℕ)
    → length passed_over ≡ 45
    → length before + length after + 61 < 2 ^ 63
    → parse_batches fuel cache (before ++ stuck_batch base passed_over after) (length before)
      ≡ out_of_fuel
unfolding parse_batches
parse_batches_never_ends base before passed_over after cache zero passed small = refl
parse_batches_never_ends base before passed_over after cache (suc fuel) passed small =
    let size = log_size base before passed_over after passed small cache in
    let log = before ++ stuck_batch base passed_over after in
    rw
      (
        stays base before passed_over after passed small cache,
        parse_batches_never_ends base before passed_over after cache fuel passed small,
        lt→ltb (length before) (length log) (omega (arith, size)),
        le→ltb_false (length log) (length before + 12) (omega (arith, size)),
      )
      refl
