-- ===== src/Core/Hexdump/Columns.antt =====
-- The columns that the header and the rows of a dump take.
use codecrafters_kafka_cpp.Common.{
  ℕ, zero, suc, ◌+◌, ◌-◌, ◌*◌, ◌/◌, ◌%◌, ◌<◌, ◌≡◌, inl, inr, [], ◌∷◌, Bool, true, false, ◌&&◌,
  Bool-cases, none, some, Bytes, IsByte, All, ltb, ◌==◌, if◌then◌else◌, arith,
}
use codecrafters_kafka_cpp.Core.Hexdump.{
  dim, green, white, is_printable, columns, gap, hex_byte, ascii_byte, byte_at, hex_cell,
  ascii_cell, header_cell,
}
use codecrafters_kafka_cpp.Core.Hexdump.Terminal.{
  Shows, Shows-of_eq, ◌then_shows◌, Shows-nothing, Shows-byte, Shows-text, Shows-two_bytes, IsPlain,
}
use codecrafters_kafka_cpp.Core.Hexdump.Widths.{
  Shows-reset, Shows-dim, Shows-green, Shows-white, Shows-blank, Shows-hex,
}

-- The gap before each eighth column.
gap_width : ℕ → ℕ
gap_width i = if ltb 0 i && (i % 8 == 0) then 1 else 0

Shows-gap : (i : ℕ) → Shows (gap i) (gap_width i)
unfolding gap gap_width
Shows-gap i = elim (Bool-cases (ltb 0 i && (i % 8 == 0))) [
  | inl here ↦ rw here Shows-blank
  | inr nowhere ↦ rw nowhere Shows-nothing
]

-- Up to a column there is a gap for every eight columns.
gaps_below : (i : ℕ) → gap_width i + (i - 1) / 8 ≡ i / 8
unfolding gap_width
gaps_below i = ground arith

-- Columns of three characters with their gaps.
Shows-gapped_columns :
    (cell : ℕ → Bytes) (end left i n : ℕ)
    → ((j : ℕ) → j < end → Shows (cell j) (gap_width j + 3))
    → i + left ≡ end
    → n + (i - 1) / 8 ≡ 3 * left + (i + left - 1) / 8
    → Shows (columns cell left i) n
unfolding columns
Shows-gapped_columns cell end zero i n h e k = Shows-of_eq 0 n (omega arith) Shows-nothing
Shows-gapped_columns cell end (suc left) i n h e k =
    Shows-of_eq (gap_width i + 3 + (n - (gap_width i + 3))) n (omega (arith, gaps_below i)) (
      h i (omega arith)
      then_shows Shows-gapped_columns cell end left (i + 1) (n - (gap_width i + 3)) h (omega arith)
          (omega (arith, gaps_below i)))

Shows-columns :
    (cell : ℕ → Bytes) (left i : ℕ)
    → ((j : ℕ) → Shows (cell j) 1)
    → Shows (columns cell left i) left
unfolding columns
Shows-columns cell zero i h = Shows-nothing
Shows-columns cell (suc left) i h =
    Shows-of_eq (1 + left) (suc left) (omega arith)
      (h i then_shows Shows-columns cell left (i + 1) h)

-- The column header: the numbers of the columns have two digits below 256.
Shows-header_cell : (i : ℕ) → i < 256 → Shows (header_cell i) (gap_width i + 3)
unfolding header_cell
Shows-header_cell i h = Shows-of_eq (gap_width i + (0 + (2 + (0 + 1)))) _ (omega arith) (
    Shows-gap i
    then_shows Shows-dim
    then_shows Shows-hex 65 1 i (omega arith) (omega arith)
    then_shows Shows-reset
    then_shows Shows-blank)

pub Shows-header_cells :
    (k : ℕ) → k < 32 → Shows (columns header_cell (8 * suc k) 0) (3 * (8 * suc k) + k)
Shows-header_cells k h =
    Shows-gapped_columns header_cell (8 * suc k) (8 * suc k) 0 (3 * (8 * suc k) + k)
      (λ j l. Shows-header_cell j (omega arith)) (omega arith) (omega arith)

-- A byte of the data, if there is one in the column.
Shows-hex_byte : (byte : ℕ) → IsByte byte → Shows (hex_byte byte) 3
unfolding hex_byte
Shows-hex_byte byte h = Shows-of_eq (0 + (2 + (0 + 1))) 3 (omega arith) (
    Shows-colour
    then_shows Shows-hex 97 1 byte (omega arith) (omega arith)
    then_shows Shows-reset
    then_shows Shows-blank)
  where
    Shows-kind :
        (zero printable : Bool) → Shows (if zero then dim else if printable then green else white) 0
    Shows-kind true printable = Shows-dim
    Shows-kind false true = Shows-green
    Shows-kind false false = Shows-white

    Shows-colour : Shows (if byte == 0 then dim else if is_printable byte then green else white) 0
    Shows-colour = Shows-kind (byte == 0) (is_printable byte)

is_printable-IsPlain : (byte : ℕ) → is_printable byte ≡ true → IsPlain byte
unfolding is_printable
is_printable-IsPlain byte h = ground arith

Shows-ascii_byte : (byte : ℕ) → Shows (ascii_byte byte) 1
unfolding ascii_byte
Shows-ascii_byte byte = elim (Bool-cases (is_printable byte)) [
  | inl printable ↦ rw printable (
      Shows-of_eq (0 + (1 + 0)) 1 (omega arith) (
        Shows-green
        then_shows Shows-byte byte (is_printable-IsPlain byte printable)
        then_shows Shows-reset))
  | inr other ↦ rw other (
      Shows-of_eq (0 + (1 + 0)) 1 (omega arith) (
        Shows-dim
        then_shows Shows-two_bytes 194 183 (omega arith) (omega arith) (omega arith)
        then_shows Shows-reset))
]

Shows-hex_cell : (row : Bytes) (i : ℕ) → All IsByte row → Shows (hex_cell row i) (gap_width i + 3)
unfolding hex_cell
Shows-hex_cell row i h = Shows-gap i then_shows content row i h
  where
    content :
        (bytes : Bytes) (j : ℕ)
        → All IsByte bytes
        → Shows (elim (byte_at bytes j) [ none ↦ 32 ∷ 32 ∷ 32 ∷ [] | some byte ↦ hex_byte byte ]) 3
    content [] j k = Shows-text (32 ∷ 32 ∷ 32 ∷ []) (omega arith)
    content (b ∷ bytes) zero k = Shows-hex_byte b k.0
    content (b ∷ bytes) (suc j) k = content bytes j k.1

Shows-ascii_cell : (row : Bytes) (i : ℕ) → Shows (ascii_cell row i) 1
unfolding ascii_cell
Shows-ascii_cell [] i = Shows-blank
Shows-ascii_cell (b ∷ row) zero = Shows-ascii_byte b
Shows-ascii_cell (b ∷ row) (suc i) = Shows-ascii_cell row i

pub Shows-hex_cells :
    (row : Bytes) (k : ℕ)
    → All IsByte row
    → Shows (columns (hex_cell row) (8 * suc k) 0) (3 * (8 * suc k) + k)
Shows-hex_cells row k h =
    Shows-gapped_columns (hex_cell row) (8 * suc k) (8 * suc k) 0 (3 * (8 * suc k) + k)
      (λ j l. Shows-hex_cell row j h) (omega arith) (omega arith)

pub Shows-ascii_cells : (row : Bytes) (n : ℕ) → Shows (columns (ascii_cell row) n 0) n
Shows-ascii_cells row n = Shows-columns (ascii_cell row) n 0 (Shows-ascii_cell row)
