-- ===== src/Core/Hexdump.antt =====
-- src/core/hexdump.cpp and hexdump.hpp: a dump of bytes for the terminal, as the bytes that go to the
-- stream. What was written before an exception is left out.
pub mod Terminal
pub mod Widths
pub mod Columns
pub mod Box
pub mod Layout
use codecrafters_kafka_cpp.Common.{
  ℕ, zero, suc, ◌+◌, ◌-◌, ◌*◌, ◌/◌, ◌%◌, ◌^◌, List, [], ◌∷◌, ◌++◌, Bool, true, false, ◌&&◌, Option,
  none, some, Bytes, length, take, drop, ltb, leb, ◌==◌, if◌then◌else◌, Outcome, ok, throws,
  out_of_fuel, length_error, bind,
}
use codecrafters_kafka_cpp.Common.Text.{codes, digits}
use codecrafters_kafka_cpp.Storage.FileSystem.{FileSystem}

-- Escape sequences that set the colour.
abbrev pub reset : Bytes
reset = 27 ∷ codes "[0m"

abbrev pub dim : Bytes
dim = 27 ∷ codes "[2m"

abbrev pub cyan : Bytes
cyan = 27 ∷ codes "[36m"

abbrev pub yellow : Bytes
yellow = 27 ∷ codes "[33m"

abbrev pub green : Bytes
green = 27 ∷ codes "[32m"

abbrev pub magenta : Bytes
magenta = 27 ∷ codes "[35m"

abbrev pub white : Bytes
white = 27 ∷ codes "[97m"

abbrev pub red : Bytes
red = 27 ∷ codes "[31m"

-- The characters of the box, and the dot of a byte that cannot be printed, in UTF-8: the bytes 226, 148
-- and a third one, or 194 and 183.
abbrev pub box_char : ℕ → Bytes
box_char last = 226 ∷ 148 ∷ last ∷ []

abbrev pub horizontal : Bytes
horizontal = box_char 128

abbrev pub vertical : Bytes
vertical = box_char 130

abbrev pub middle_dot : Bytes
middle_dot = 194 ∷ 183 ∷ []

abbrev pub newline : Bytes
newline = 10 ∷ []

unfoldable pub is_printable : ℕ → Bool
is_printable byte = leb 32 byte && leb byte 126

-- The sum of `size_t`, where `bytes_per_row / 8 - 1` wraps below eight bytes.
unfoldable pub inner_width : ℕ → ℕ
inner_width bytes_per_row =
    let hex_section = bytes_per_row * 3 + (bytes_per_row / 8 + (2 ^ 64 - 1)) in
    (1 + 8 + 2 + hex_section + 1 + 1 + 1 + bytes_per_row + 1) % 2 ^ 64

unfoldable pub h_line : ℕ → Bytes
h_line zero = []
h_line (suc width) = h_line width ++ horizontal

-- `{:x}` or `{:X}`, by the code of the digit ten, for a number below 16 ^ k.
unfoldable pub hex_digit : ℕ → ℕ → ℕ
hex_digit ten d = if ltb d 10 then b'0' + d else ten + (d - 10)

unfoldable pub hex_digits : ℕ → ℕ → ℕ → Bytes
unfolding hex_digit
hex_digits ten zero n = []
hex_digits ten (suc k) n =
    let higher = hex_digits ten k (n / 16) in
    (if ltb n 16 then [] else higher) ++ hex_digit ten (n % 16) ∷ []

unfoldable pub repeat : ℕ → ℕ → Bytes
repeat zero c = []
repeat (suc n) c = c ∷ repeat n c

-- `{:0wx}` of a `size_t`: zeros in front up to `w` places.
unfoldable pub hex : ℕ → ℕ → ℕ → Bytes
unfolding hex_digits repeat
hex ten places n = let shown = hex_digits ten 16 n in repeat (places - length shown) b'0' ++ shown

-- `std::string(n, ' ')`, which no length that has wrapped below zero fits.
unfoldable pub blanks : ℕ → Outcome Bytes
unfolding repeat
blanks n = if ltb n (2 ^ 63) then ok (repeat n b' ') else throws length_error

-- What a loop `for (i = ...; i < bytes_per_row; ++i)` writes that has `left` rounds to go.
unfoldable pub columns : (ℕ → Bytes) → ℕ → ℕ → Bytes
columns cell zero i = []
columns cell (suc left) i = cell i ++ columns cell left (i + 1)

-- The gap before each eighth column but the first one.
unfoldable pub gap : ℕ → Bytes
gap i = if ltb 0 i && (i % 8 == 0) then b' ' ∷ [] else []

unfoldable pub top_border : Bytes → ℕ → Bytes
unfolding h_line
top_border [] width =
    dim ++ (box_char 140 ++ (h_line width ++ (box_char 144 ++ (reset ++ newline))))
top_border (c ∷ cs) width =
    let label = codes " " ++ (cyan ++ ((c ∷ cs) ++ (dim ++ codes " "))) in
    let remaining = (width + (2 ^ 64 - (length (c ∷ cs) + 3) % 2 ^ 64)) % 2 ^ 64 in
    dim
    ++ (box_char 140
        ++ (horizontal ++ (label ++ (h_line remaining ++ (box_char 144 ++ (reset ++ newline))))))

unfoldable pub header_cell : ℕ → Bytes
unfolding gap hex
header_cell i = gap i ++ (dim ++ (hex b'A' 2 i ++ (reset ++ codes " ")))

unfoldable pub column_header : ℕ → Outcome Bytes
unfolding header_cell columns blanks
column_header bytes_per_row = bind (blanks ((bytes_per_row + (2 ^ 64 - 5)) % 2 ^ 64)) λ padding.
    ok (
      (dim ++ (vertical ++ (reset ++ (codes " " ++ codes "Offset    "))))
      ++ (columns header_cell bytes_per_row 0
          ++ ((codes " " ++ (dim ++ (vertical ++ (reset ++ codes " "))))
              ++ (codes "ASCII"
                  ++ (padding ++ (codes " " ++ (dim ++ (vertical ++ (reset ++ newline)))))))))

unfoldable pub separator : ℕ → Bytes
unfolding h_line
separator width = dim ++ (box_char 156 ++ (h_line width ++ (box_char 164 ++ (reset ++ newline))))

-- A byte of the row as hexadecimal digits, in a colour that shows its kind.
unfoldable pub hex_byte : ℕ → Bytes
unfolding is_printable hex
hex_byte byte =
    let colour = if byte == 0 then dim else if is_printable byte then green else white in
    colour ++ (hex b'a' 2 byte ++ (reset ++ codes " "))

unfoldable pub ascii_byte : ℕ → Bytes
unfolding is_printable
ascii_byte byte =
    if is_printable byte then green ++ (byte ∷ reset) else dim ++ (middle_dot ++ reset)

-- The byte of column `i`, if `i < row_len`.
unfoldable pub byte_at : Bytes → ℕ → Option ℕ
byte_at [] i = none
byte_at (b ∷ bs) zero = some b
byte_at (b ∷ bs) (suc i) = byte_at bs i

unfoldable pub hex_cell : Bytes → ℕ → Bytes
unfolding gap hex_byte byte_at
hex_cell row i = gap i ++ elim (byte_at row i) [ none ↦ codes "   " | some byte ↦ hex_byte byte ]

unfoldable pub ascii_cell : Bytes → ℕ → Bytes
unfolding ascii_byte byte_at
ascii_cell row i = elim (byte_at row i) [ none ↦ codes " " | some byte ↦ ascii_byte byte ]

unfoldable pub dump_row : Bytes → ℕ → ℕ → Bytes
unfolding hex columns hex_cell ascii_cell
dump_row row row_offset bytes_per_row =
    (dim
      ++ (vertical
          ++ (reset
              ++ (codes " " ++ (yellow ++ (hex b'a' 8 row_offset ++ (reset ++ codes "  ")))))))
    ++ (columns (hex_cell row) bytes_per_row 0
        ++ ((codes " " ++ (dim ++ (vertical ++ (reset ++ codes " "))))
            ++ (columns (ascii_cell row) bytes_per_row 0
                ++ (codes " " ++ (dim ++ (vertical ++ (reset ++ newline)))))))

-- The loop over the rows, with one round for each byte and one for the end.
unfoldable pub dump_rows : ℕ → Bytes → ℕ → ℕ → Outcome Bytes
unfolding dump_row
dump_rows zero bytes bytes_per_row row_offset = out_of_fuel
dump_rows (suc fuel) bytes bytes_per_row row_offset =
    let next = (row_offset + bytes_per_row) % 2 ^ 64 in
    let rest = dump_rows fuel bytes bytes_per_row next in
    let row_end = if ltb (length bytes) next then length bytes else next in
    let row = take (row_end - row_offset) (drop row_offset bytes) in
    if ltb row_offset (length bytes)
    then bind rest (λ below. ok (dump_row row row_offset bytes_per_row ++ below))
    else ok []

unfoldable pub bottom_border : ℕ → ℕ → Bytes
unfolding h_line digits
bottom_border size width =
    let shown = digits 20 size ++ codes " bytes" in
    let summary = codes " " ++ (magenta ++ (shown ++ (dim ++ codes " "))) in
    let remaining = (width + (2 ^ 64 - (length shown + 3) % 2 ^ 64)) % 2 ^ 64 in
    dim
    ++ (box_char 148
        ++ (horizontal
            ++ (summary
                ++ (h_line remaining ++ (box_char 152 ++ (reset ++ (newline ++ newline)))))))

unfoldable pub dump : Bytes → Bytes → ℕ → Outcome Bytes
unfolding inner_width top_border column_header separator dump_rows bottom_border
dump bytes title bytes_per_row =
    let width = inner_width bytes_per_row in
    bind (column_header bytes_per_row) λ header.
      bind (dump_rows (length bytes + 1) bytes bytes_per_row 0) λ rows. ok (
        top_border title width
        ++ (header ++ (separator width ++ (rows ++ bottom_border (length bytes) width))))

-- A file that is opened and cannot be read is dumped as empty.
unfoldable pub dump_file : (fs : FileSystem) → Bytes → Bytes → ℕ → fs.State → Outcome Bytes
unfolding dump
dump_file fs path title bytes_per_row s = elim (fs.read_file path s) [
  | none ↦
      ok (red ++ (codes "[hexdump]" ++ (reset ++ (codes " Failed to open: " ++ (path ++ newline)))))
  | some content ↦
      let bytes : Bytes = elim content [ none ↦ [] | some buffer ↦ buffer ] in
      let label : Bytes = elim title [ [] ↦ path | c ∷ cs ↦ c ∷ cs ] in
      dump bytes label bytes_per_row
]
