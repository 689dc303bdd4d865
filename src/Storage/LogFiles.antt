-- ===== src/Storage/LogFiles.antt =====
-- src/storage/disk_reader.cpp and log_writer.cpp: where the log of a partition is kept.
pub mod Append
pub mod Paths
use codecrafters_kafka_cpp.Common.{
  ℕ, zero, suc, ◌+◌, ◌-◌, ◌/◌, ◌%◌, ◌^◌, List, [], ◌∷◌, ◌++◌, Bool, true, false, Option, none, some,
  Bytes, ltb, if◌then◌else◌, Outcome, ok, bind,
}
use codecrafters_kafka_cpp.Common.Text.{codes, digits}
use codecrafters_kafka_cpp.Storage.FileSystem.{FileSystem}

-- `{}` of an `int32_t`: ten digits at most, behind a sign.
unfoldable pub format_int : ℕ → Bytes
unfolding digits
format_int v = if ltb v (2 ^ 31) then digits 10 v else b'-' ∷ digits 10 (2 ^ 32 - v)

unfoldable pub dir_path : Bytes → ℕ → Bytes
unfolding format_int
dir_path topic_name partition_index =
    codes "/tmp/kraft-combined-logs/" ++ (topic_name ++ b'-' ∷ format_int partition_index)

unfoldable pub file_path : Bytes → ℕ → Bytes
unfolding dir_path
file_path topic_name partition_index =
    dir_path topic_name partition_index ++ codes "/00000000000000000000.log"

-- What is read of a file: nothing, if it cannot be opened or cannot be read. A file that opens has a
-- size here (Storage/FileSystem).
abbrev pub buffer_of : Option (Option Bytes) → Option Bytes
buffer_of none = none
buffer_of (some none) = none
buffer_of (some (some buffer)) = some buffer

module _ (fs : FileSystem) where
  unfoldable pub read_log_file : Bytes → ℕ → fs.State → Option Bytes
  read_log_file topic_name partition_index s =
      buffer_of (fs.read_file (file_path topic_name partition_index) s)

  unfoldable pub append_to_log : Bytes → ℕ → Bytes → fs.State → Outcome (Bool × fs.State)
  append_to_log topic_name partition_index [] s = ok (true, s)
  append_to_log topic_name partition_index (b ∷ bs) s =
      bind (fs.create_directories (dir_path topic_name partition_index) s) λ s'.
        elim (fs.append_file (file_path topic_name partition_index) (b ∷ bs) s') [
          | none ↦ ok (false, s')
          | some (good, s'') ↦ ok (good, s'')
        ]
