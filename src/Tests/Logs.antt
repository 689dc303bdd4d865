-- ===== src/Tests/Logs.antt =====
-- The log of a partition.
use codecrafters_kafka_cpp.Common.{
  ◌≡◌, refl, ℕ, [], ◌∷◌, ◌++◌, inl, Bytes, be_bytes, le_bytes, ok, out_of_fuel, arith, ◌^◌, ◌-◌,
}
use codecrafters_kafka_cpp.Storage.LogFiles.Paths.{file_path_injective}
use codecrafters_kafka_cpp.Storage.LogParser.{extract_loop, extract_records_from_offset}
use codecrafters_kafka_cpp.Storage.LogParser.Batches.{Batch, IsBatch, batch_bytes, log_of}
use codecrafters_kafka_cpp.Storage.LogParser.Extract.{
  from_offset, extract_records_from_offset-log_of,
}
use codecrafters_kafka_cpp.Storage.LogParser.Stuck.{extract_loop_never_ends}
use codecrafters_kafka_cpp.Tests.Data.{foo}

abbrev pub batch_at : ℕ → Batch
batch_at offset = record { base_offset = offset; payload = 8 ∷ 9 ∷ [] }

pub batch_at-0 : IsBatch (batch_at 0)
batch_at-0 = record { base_offset = omega arith; payload = omega arith }

pub batch_at-3 : IsBatch (batch_at 3)
batch_at-3 = record { base_offset = omega arith; payload = omega arith }

-- Of two batches and a torn third one, the second from the offset 2 on.
extract_records_from_offset-log_of_example :
    extract_records_from_offset (log_of (batch_at 0 ∷ batch_at 3 ∷ []) ++ 0 ∷ []) 2
    ≡ ok (log_of (from_offset 2 (batch_at 0 ∷ batch_at 3 ∷ [])))
unfolding log_of batch_bytes be_bytes le_bytes
extract_records_from_offset-log_of_example =
    extract_records_from_offset-log_of 2 (batch_at 0 ∷ batch_at 3 ∷ []) (0 ∷ [])
      (batch_at-0, (batch_at-3, tt)) (inl (omega arith)) (omega arith)

second_only : from_offset 2 (batch_at 0 ∷ batch_at 3 ∷ []) ≡ batch_at 3 ∷ []
unfolding from_offset
second_only = refl

extract_loop_never_ends_example :
    extract_loop (be_bytes 8 0 ++ (be_bytes 4 (2 ^ 32 - 12) ++ [])) 0 1000 0 [] ≡ out_of_fuel
extract_loop_never_ends_example =
    extract_loop_never_ends 0 0 1000 [] [] [] (omega arith) (omega arith)

file_path_injective_example : ◌≡◌ {A = Bytes} foo foo × ◌≡◌ {A = ℕ} 5 5
file_path_injective_example = file_path_injective foo foo 5 5 (omega arith) (omega arith) refl
