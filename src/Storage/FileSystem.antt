-- ===== src/Storage/FileSystem.antt =====
-- What the program asks of the file system through `std::filesystem` and `std::fstream`. The file
-- system itself is no part of the program.
use codecrafters_kafka_cpp.Common.{[], Bool, Option, none, some, Bytes, Outcome}

pub record FileSystem : Type 1 where
  pub State : Type 0
  -- A file opened for reading, and its whole content, if it can be read. The size of a file that opens is
  -- known: one whose `tellg` fails, for which the vector of that size throws, is not among them.
  pub read_file : Bytes → State → Option (Option Bytes)
  -- `std::filesystem::create_directories`, which may throw.
  pub create_directories : Bytes → State → Outcome State
  -- The bytes written to a file opened for appending, and `file.good()` after that.
  pub append_file : Bytes → Bytes → State → Option (Bool × State)

-- What a file holds for an append to it: nothing, if it is not there yet.
abbrev pub content_of : Option (Option Bytes) → Bytes
content_of (some (some bytes)) = bytes
content_of (some none) = []
content_of none = []
