-- ===== src/Common/Text.antt =====
-- Texts as bytes, and what `std::format` makes of numbers.
use Prim.Native.Char.{code}
use Prim.Native.String.{String}
use Prim.Native.Nat.{ℕ, zero, suc, ◌+◌, ◌/◌, ◌%◌}
use mathlib.Core.List.{[], ◌∷◌, ◌++◌}
use codecrafters_kafka_cpp.Common.Tests.{ltb, if◌then◌else◌}
use codecrafters_kafka_cpp.Common.Word.{Bytes}

abbrev pub codes : String → Bytes
codes String.[] = []
codes (String.◌∷◌ c s) = code c ∷ codes s

-- The decimal digits of a number below 10 ^ k, without leading zeros.
unfoldable pub digits : ℕ → ℕ → Bytes
digits zero n = []
digits (suc k) n =
    let higher = digits k (n / 10) in (if ltb n 10 then [] else higher) ++ (b'0' + n % 10) ∷ []
