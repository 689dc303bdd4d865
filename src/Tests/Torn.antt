-- ===== src/Tests/Torn.antt =====
-- A Fetch of logs whose bytes are no row of batches.
use codecrafters_kafka_cpp.Common.{[], ◌∷◌, some, Bytes}
use codecrafters_kafka_cpp.Api.Dto.Response.{Response}
use codecrafters_kafka_cpp.Api.Handler.{World}
use codecrafters_kafka_cpp.Tests.Data.{memory}

-- A header with the length -11, which moves the loop on by one byte, and two bytes.
abbrev torn_log : Bytes
torn_log = 0 ∷ 0 ∷ 0 ∷ 0 ∷ 0 ∷ 0 ∷ 0 ∷ 0 ∷ 255 ∷ 255 ∷ 255 ∷ 245 ∷ 7 ∷ 7 ∷ []

-- Every log of this file system is torn.
abbrev torn_disk : World memory
torn_disk = record { files = λ path. some (some torn_log); console = [] }
