-- ===== src/Storage/LogParser/Ends.antt =====
-- On which bytes the loop of `extract_records_from_offset` ends.
use codecrafters_kafka_cpp.Common.{
  Bool, ℕ, ◌+◌, ◌^◌, ◌≤◌, ◌<◌, ◌≡◌, ◌⊎◌, length, take, drop, true, false, Bytes, from_le, byteswap,
  Outcome, ok,
}

-- The four bytes from the place 8 of a header on, which stands at `place`, as a big-endian number.
pub length_at : ℕ → Bytes → ℕ
length_at place log = byteswap 4 (from_le (take 4 (drop (place + 8) log)))

-- As an `int32_t` at most -12, or so large that the sum with 12 is none.
abbrev pub IsBadLength : ℕ → Type 0
IsBadLength n = (2 ^ 31 ≤ n + 12) × (n + 12 ≤ 2 ^ 32)

-- A header in the log has such a length.
abbrev pub HasBadLength : Bytes → Type 0
HasBadLength log = (place : ℕ) × (place + 12 ≤ length log) × IsBadLength (length_at place log)

-- What a round at `place` gives whose header has another length: the end of the loop, or a later place.
abbrev Advances :
    Bytes → ℕ → Bytes → Outcome (record { stop : Bool; current_pos : ℕ; result : Bytes }) → Type 0
Advances log place result r =
    (r ≡ ok (record { stop = true; current_pos = place; result = result }))
    ⊎ ((next : ℕ) × (result' : Bytes) × (place < next)
        × (next ≤ length log)
        × (r ≡ ok (record { stop = false; current_pos = next; result = result' })))
