-- ===== src/Storage/LogParser.antt =====
-- src/storage/log_parser.cpp: the record batches of a log from an offset on.
pub mod Batches
pub mod Extract
pub mod Ends
pub mod Stuck
use codecrafters_kafka_cpp.Common.{
  ℕ, zero, suc, ◌+◌, ◌-◌, ◌*◌, ◌%◌, ◌^◌, List, [], ◌∷◌, ◌++◌, Bool, true, false, ◌||◌, ◌&&◌, Bytes,
  length, take, drop, ltb, leb, leb_ℤ, signed, to_size, if◌then◌else◌, Outcome, ok, undefined,
  out_of_fuel, bind,
}
use codecrafters_kafka_cpp.Core.Reader.{read_be}

-- `size_t total_batch_size = 12 + batch_length`: the sum is one of `int`s, whose overflow is
-- undefined, and a negative sum becomes a large `size_t`.
unfoldable pub total_batch_size : ℕ → Outcome ℕ
total_batch_size batch_length =
    if ltb batch_length (2 ^ 31) && leb (2 ^ 31) (batch_length + 12)
    then undefined
    else ok (to_size ((batch_length + 12) % 2 ^ 32))

-- `log_bytes.subspan(start, count)`, which wants its range inside the span, behind the result.
unfoldable pub insert_batch : Bytes → ℕ → ℕ → Bytes → Outcome Bytes
insert_batch log_bytes start count result =
    if leb count (length log_bytes - start)
    then ok (result ++ take count (drop start log_bytes))
    else undefined

-- `base_offset >= target_offset || !result.empty()`, on `int64_t`.
abbrev pub is_wanted : ℕ → ℕ → Bytes → Bool
is_wanted base_offset target_offset [] = leb_ℤ (signed 64 target_offset) (signed 64 base_offset)
is_wanted base_offset target_offset (b ∷ bs) = true

module _ (log_bytes : Bytes) (target_offset : ℕ) where
  -- One round of the loop at `batch_start`: `none` is the `break`, and otherwise the round gives the
  -- next position and result.
  unfoldable pub extract_batch :
      ℕ → Bytes → Outcome (record { stop : Bool; current_pos : ℕ; result : Bytes })
  extract_batch batch_start result = bind (read_be 8 log_bytes batch_start) λ (base_offset, pos).
      bind (read_be 4 log_bytes pos) λ (batch_length, _).
        bind (total_batch_size batch_length) λ total.
          let next = (batch_start + total) % 2 ^ 64 in
          let inserted : Outcome Bytes =
            if is_wanted base_offset target_offset result
            then insert_batch log_bytes batch_start total result
            else ok result in
          if ltb (length log_bytes) next
          then ok (record { stop = true; current_pos = batch_start; result = result })
          else bind inserted
              λ result'. ok (record { stop = false; current_pos = next; result = result' })

  unfoldable pub extract_loop : ℕ → ℕ → Bytes → Outcome Bytes
  extract_loop zero current_pos result = out_of_fuel
  extract_loop (suc fuel) current_pos result =
      let more = bind (extract_batch current_pos result) λ r.
        let rest = extract_loop fuel r.current_pos r.result in
        if r.stop then ok r.result else rest in
      if leb (current_pos + 12) (length log_bytes) then more else ok result

-- While the result is empty, a round at a position for the second time repeats for ever; once it is
-- not, the position grows, or the round repeats for ever. So a run that ends has at most this many
-- rounds.
unfoldable pub extract_records_from_offset : Bytes → ℕ → Outcome Bytes
extract_records_from_offset log_bytes target_offset =
    extract_loop log_bytes target_offset (2 * length log_bytes + 3) 0 []
