-- ===== src/Storage/LogParser/Stuck.antt =====
-- Logs on which the loop of `extract_records_from_offset` never ends.
use codecrafters_kafka_cpp.Common.{
  le→ltb_false, ℕ, zero, suc, ◌+◌, ◌-◌, ◌%◌, ◌^◌, ◌<◌, ◌≡◌, refl, ◌∙◌, ◌++◌, append-nil, length,
  length-append, false, Bool-cases, inl, inr, Bytes, be_bytes, le→leb, ok, out_of_fuel, arith,
}
use codecrafters_kafka_cpp.Storage.LogParser.{
  is_wanted, total_batch_size, insert_batch, extract_batch, extract_loop,
}
use codecrafters_kafka_cpp.Storage.LogParser.Batches.{read_base_offset, read_batch_length}
use codecrafters_kafka_cpp.Storage.LogParser.Extract.{loop_goes_on, length-header}

total_of_minus_twelve : total_batch_size (2 ^ 32 - 12) ≡ ok 0
unfolding total_batch_size
total_of_minus_twelve = refl

module _ (target base : ℕ) (before after result : Bytes) (fits : base < 2 ^ 64)
    (small : length before + length after + 12 < 2 ^ 63) where
  abbrev bad_log : Bytes
  bad_log = before ++ (be_bytes 8 base ++ (be_bytes 4 (2 ^ 32 - 12) ++ after))

  insert_nothing : insert_batch bad_log (length before) 0 result ≡ ok result
  unfolding insert_batch
  insert_nothing = rw (le→leb 0 (length bad_log - length before) (omega arith), append-nil)

  stays :
      extract_batch bad_log target (length before) result
      ≡ ok (record { stop = false; current_pos = length before; result = result })
  unfolding extract_batch
  stays =
      rw
        (
          read_base_offset before after base (2 ^ 32 - 12) fits (omega arith) small,
          read_batch_length before after base (2 ^ 32 - 12) fits (omega arith) small,
          total_of_minus_twelve,
          same_place,
          le→ltb_false (length bad_log) (length before) (
              omega (
                arith,
                length-append before (be_bytes 8 base ++ (be_bytes 4 (2 ^ 32 - 12) ++ after)),
              )),
        )
        (elim (Bool-cases (is_wanted base target result)) [
          | inl wanted ↦ rw (wanted, insert_nothing)
          | inr unwanted ↦ rw unwanted
        ])
    where
      same_place : (length before + 0) % 2 ^ 64 ≡ length before
      same_place = omega arith

-- Where a header with the length -12 is reached, the loop stays at it: no number of rounds is enough,
-- whatever stands in the log, which is shorter than 2 ^ 63, in front of the header and behind it.
pub extract_loop_never_ends :
    (target base fuel : ℕ) (before after result : Bytes)
    → base < 2 ^ 64
    → length before + length after + 12 < 2 ^ 63
    → extract_loop
        (before ++ (be_bytes 8 base ++ (be_bytes 4 (2 ^ 32 - 12) ++ after)))
        target
        fuel
        (length before)
        result
      ≡ out_of_fuel
extract_loop_never_ends target base zero before after result fits small =
    unfold extract_loop in refl
extract_loop_never_ends target base (suc fuel) before after result fits small =
    loop_goes_on (before ++ (be_bytes 8 base ++ (be_bytes 4 (2 ^ 32 - 12) ++ after))) target fuel
      (length before) (length before) result result
      (omega (
        arith,
        length-append before (be_bytes 8 base ++ (be_bytes 4 (2 ^ 32 - 12) ++ after)),
        length-header base (2 ^ 32 - 12) after,
      ))
      (stays target base before after result fits small)
    ∙ extract_loop_never_ends target base fuel before after result fits small
