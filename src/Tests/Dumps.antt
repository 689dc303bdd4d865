-- ===== src/Tests/Dumps.antt =====
-- A hex dump.
use codecrafters_kafka_cpp.Common.{
  ◌≡◌, refl, ℕ, ◌+◌, ◌*◌, ◌≤◌, ◌<◌, ◌<◌, [], ◌∷◌, ◌++◌, Bytes, ok, throws, length_error, bind,
  arith,
}
use codecrafters_kafka_cpp.Common.Text.{codes}
use codecrafters_kafka_cpp.Core.Hexdump.{dump, hex, repeat, inner_width}
use codecrafters_kafka_cpp.Core.Hexdump.Terminal.{line_widths}
use codecrafters_kafka_cpp.Core.Hexdump.Layout.{dump-line_widths}

-- The first bytes of a batch, under the path of the metadata log.
abbrev some_bytes : Bytes
some_bytes = 0 ∷ 0 ∷ 0 ∷ 0 ∷ 0 ∷ 0 ∷ 0 ∷ 3 ∷ 72 ∷ 105 ∷ 255 ∷ 0 ∷ 0 ∷ 0 ∷ 0 ∷ 0 ∷ 1 ∷ []

abbrev metadata_path : Bytes
metadata_path = codes "/tmp/kraft-combined-logs/__cluster_metadata-0/00000000000000000000.log"

dump-line_widths_example :
    (out : Bytes) × (rows : ℕ) × (dump some_bytes metadata_path 16 ≡ ok out)
    × (line_widths out ≡ let w = inner_width 16 + 2 in w ∷ w ∷ w ∷ (repeat rows w ++ w ∷ 0 ∷ []))
    × (17 ≤ rows * 16)
    × (rows * 16 < 17 + 16)
unfolding inner_width
dump-line_widths_example =
    dump-line_widths some_bytes metadata_path 1 (omega arith) (omega arith) (omega arith)
      (omega arith) (omega arith)

two_rows :
    bind (dump some_bytes metadata_path 16) (λ out. ok (line_widths out))
    ≡ ok (82 ∷ 82 ∷ 82 ∷ 82 ∷ 82 ∷ 82 ∷ 0 ∷ [])
unfolding dump line_widths
two_rows = refl

shown_hex : hex 97 8 703710 ≡ codes "000abcde"
unfolding hex
shown_hex = refl

-- Rows of four bytes have no room for the word "ASCII".
rows_of_four : dump some_bytes [] 4 ≡ throws length_error
unfolding dump
rows_of_four = refl
