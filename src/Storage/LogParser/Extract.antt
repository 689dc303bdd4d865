-- ===== src/Storage/LogParser/Extract.antt =====
-- `extract_records_from_offset` against a description of what it is for.
use codecrafters_kafka_cpp.Common.{
  ℕ, zero, suc, ◌+◌, ◌*◌, ◌%◌, ◌^◌, ◌≤◌, ◌<◌, ◌≡◌, refl, sym, ap, ◌∙◌, ◌⊎◌, inl, inr, List, [], ◌∷◌,
  ◌++◌, append_assoc, append-nil, length, length-append, All, true, false, Bool-cases, Bytes,
  be_bytes, length-be_bytes, leb_ℤ, signed, le→leb, lt→ltb, lt→leb_false, if◌then◌else◌, ok, arith,
}
use codecrafters_kafka_cpp.Storage.LogParser.{
  extract_batch, extract_loop, extract_records_from_offset,
}
use codecrafters_kafka_cpp.Storage.LogParser.Batches.{
  Batch, batch_bytes, log_of, IsBatch, length-batch_bytes, total_batch_size_lem, read_base_offset,
  read_batch_length, collect, extract_batch_lem,
}

-- What may follow the last whole batch: fewer bytes than a batch has in front of its payload, or a
-- batch whose payload is not all there, as after a write that is not finished.
abbrev pub IsCut : Bytes → Type 0
IsCut tail =
    (length tail < 12)
    ⊎ ((base len : ℕ) × (payload : Bytes) × (base < 2 ^ 64)
        × (len + 12 < 2 ^ 31)
        × (length payload < len)
        × (tail ≡ be_bytes 8 base ++ (be_bytes 4 len ++ payload)))

-- The batches from the first on whose base offset is the target or later, whole.
unfoldable pub from_offset : ℕ → List Batch → List Batch
from_offset target [] = []
from_offset target (b ∷ bs) =
    if leb_ℤ (signed 64 target) (signed 64 b.base_offset) then b ∷ bs else from_offset target bs

-- A round of the loop where the round's outcome is known.
module _ (log : Bytes) (target fuel pos next : ℕ) (result result' : Bytes) where
  pub loop_stops :
      pos + 12 ≤ length log
      → extract_batch log target pos result
        ≡ ok (record { stop = true; current_pos = next; result = result' })
      → extract_loop log target (suc fuel) pos result ≡ ok result'
  unfolding extract_loop
  loop_stops h e = rw (le→leb (pos + 12) (length log) h, e)

  pub loop_goes_on :
      pos + 12 ≤ length log
      → extract_batch log target pos result
        ≡ ok (record { stop = false; current_pos = next; result = result' })
      → extract_loop log target (suc fuel) pos result ≡ extract_loop log target fuel next result'
  unfolding extract_loop
  loop_goes_on h e = rw (le→leb (pos + 12) (length log) h, e)

pub length-header :
    (base len : ℕ) (payload : Bytes)
    → length (be_bytes 8 base ++ (be_bytes 4 len ++ payload)) ≡ length payload + 12
length-header base len payload = omega (
  arith,
  length-append (be_bytes 8 base) (be_bytes 4 len ++ payload),
  length-append (be_bytes 4 len) payload,
  length-be_bytes 8 base,
  length-be_bytes 4 len,
)

extract_batch_cut :
    (target : ℕ) (before payload result : Bytes) (base len : ℕ)
    → base < 2 ^ 64
    → len + 12 < 2 ^ 31
    → length payload < len
    → length before + length payload + 12 < 2 ^ 63
    → extract_batch
        (before ++ (be_bytes 8 base ++ (be_bytes 4 len ++ payload)))
        target
        (length before)
        result
      ≡ ok (record { stop = true; current_pos = length before; result = result })
unfolding extract_batch
extract_batch_cut target before payload result base len hb hl cut small = rw (
  read_base_offset before payload base len hb (omega arith) small,
  read_batch_length before payload base len hb (omega arith) small,
  total_batch_size_lem len hl,
  lt→ltb _ _ past_end,
)
  where
    past_end :
        length (before ++ (be_bytes 8 base ++ (be_bytes 4 len ++ payload)))
        < (length before + (len + 12)) % 2 ^ 64
    past_end = omega (
      arith,
      length-append before (be_bytes 8 base ++ (be_bytes 4 len ++ payload)),
      length-header base len payload,
    )

module _ (target : ℕ) (before tail : Bytes) (small : length before + length tail < 2 ^ 63) where
  stops_at_cut :
      (fuel : ℕ) (result : Bytes)
      → IsCut tail
      → extract_loop (before ++ tail) target (suc fuel) (length before) result ≡ ok result
  unfolding extract_loop
  stops_at_cut fuel result (inl short) = rw (
      lt→leb_false (length before + 12) (length (before ++ tail))
        (omega (arith, length-append before tail)))
  stops_at_cut fuel result (inr (base, len, payload, hb, hl, cut, e)) =
      let size : length tail ≡ length payload + 12 = rw e (length-header base len payload) in
      loop_stops (before ++ tail) target fuel (length before) (length before) result result
        (omega (arith, length-append before tail))
        (rw e (extract_batch_cut target before payload result base len hb hl cut (omega arith)))

gather : ℕ → Bytes → List Batch → Bytes
gather target result [] = result
gather target result (b ∷ bs) = gather target (collect target result b) bs

extract_loop-gather :
    (target : ℕ) (bs : List Batch) (before tail result : Bytes) (fuel : ℕ)
    → All IsBatch bs
    → IsCut tail
    → length before + length (log_of bs ++ tail) < 2 ^ 63
    → length bs < fuel
    → extract_loop (before ++ (log_of bs ++ tail)) target fuel (length before) result
      ≡ ok (gather target result bs)
unfolding log_of gather
extract_loop-gather target bs before tail result zero h c small f = absurd (omega arith)
extract_loop-gather target [] before tail result (suc fuel) h c small f =
    stops_at_cut target before tail small fuel result c
extract_loop-gather target (b ∷ bs) before tail result (suc fuel) h c small f =
    let log_shape = append_assoc (batch_bytes b) (log_of bs) tail in
    let size = length-append (batch_bytes b) (log_of bs ++ tail) in
    let fits : length before + length (batch_bytes b) + length (log_of bs ++ tail) < 2 ^ 63 =
      omega (arith, ap length log_shape, size, small) in
    let rest =
      extract_loop-gather target bs (before ++ batch_bytes b) tail (collect target result b) fuel
        h.1 c (omega (arith, length-append before (batch_bytes b))) (omega arith) in
    rw log_shape (
      loop_goes_on (before ++ (batch_bytes b ++ (log_of bs ++ tail))) target fuel (length before)
        (length before + length (batch_bytes b)) result (collect target result b)
        (omega (
          arith,
          length-append before (batch_bytes b ++ (log_of bs ++ tail)),
          size,
          length-batch_bytes b,
        ))
        (extract_batch_lem target b h.0 before (log_of bs ++ tail) fits result)
      ∙ rw
          (
            append_assoc before (batch_bytes b) (log_of bs ++ tail),
            length-append before (batch_bytes b),
          )
          at rest)

gather-nonempty :
    (target : ℕ) (result : Bytes) (bs : List Batch)
    → 0 < length result
    → gather target result bs ≡ result ++ log_of bs
unfolding gather log_of
gather-nonempty target [] bs h = absurd (omega arith)
gather-nonempty target (x ∷ xs) [] h = sym (append-nil (x ∷ xs))
gather-nonempty target (x ∷ xs) (b ∷ bs) h =
    gather-nonempty target (x ∷ (xs ++ batch_bytes b)) bs (omega arith)
    ∙ append_assoc (x ∷ xs) (batch_bytes b) (log_of bs)

gather-from_offset :
    (target : ℕ) (bs : List Batch) → gather target [] bs ≡ log_of (from_offset target bs)
unfolding gather log_of from_offset
gather-from_offset target [] = refl
gather-from_offset target (b ∷ bs) =
    elim (Bool-cases (leb_ℤ (signed 64 target) (signed 64 b.base_offset))) [
      | inl wanted ↦
          rw wanted
            (gather-nonempty target (batch_bytes b) bs (omega (arith, length-batch_bytes b)))
      | inr unwanted ↦ rw unwanted (gather-from_offset target bs)
    ]

length-log_of : (bs : List Batch) → length bs ≤ length (log_of bs)
unfolding log_of
length-log_of [] = omega arith
length-log_of (b ∷ bs) =
    omega (arith, length-append (batch_bytes b) (log_of bs), length-batch_bytes b, length-log_of bs)

-- Of a log shorter than 2 ^ 63 that is a row of whole batches, each shorter than 2 ^ 31, with or
-- without a batch at its end that is cut off,
-- `extract_records_from_offset` returns the batches from the first on whose base offset is the
-- target or later, compared as signed numbers, and nothing of what is cut off.
pub extract_records_from_offset-log_of :
    (target : ℕ) (bs : List Batch) (tail : Bytes)
    → All IsBatch bs
    → IsCut tail
    → length (log_of bs ++ tail) < 2 ^ 63
    → extract_records_from_offset (log_of bs ++ tail) target ≡ ok (log_of (from_offset target bs))
unfolding extract_records_from_offset
extract_records_from_offset-log_of target bs tail h c small =
    extract_loop-gather target bs [] tail [] (2 * length (log_of bs ++ tail) + 3) h c (omega arith)
      (omega (arith, length-append (log_of bs) tail, length-log_of bs))
    ∙ ap ok (gather-from_offset target bs)
