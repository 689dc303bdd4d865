-- ===== src/Core/Hexdump/Box.antt =====
-- The lines of a dump: each has the width of the box.
use codecrafters_kafka_cpp.Common.{
  ℕ, suc, ◌+◌, ◌-◌, ◌*◌, ◌%◌, ◌^◌, ◌≤◌, ◌<◌, ◌≡◌, refl, [], ◌∷◌, ◌++◌, Bytes, IsByte, All, length,
  length-append, lt→ltb, ok, arith,
}
use codecrafters_kafka_cpp.Common.Text.{digits}
use codecrafters_kafka_cpp.Core.Hexdump.{
  dim, reset, vertical, box_char, repeat, blanks, inner_width, top_border, column_header, separator,
  dump_row, bottom_border,
}
use codecrafters_kafka_cpp.Core.Hexdump.Terminal.{
  Shows, Shows-of_eq, ◌then_shows◌, Shows-text, IsPlain, EndsLine, EndsLine-newline,
  EndsLine-two_newlines, ◌then_ends◌, ShowsLines, ShowsLines-line,
}
use codecrafters_kafka_cpp.Core.Hexdump.Columns.{
  Shows-header_cells, Shows-hex_cells, Shows-ascii_cells,
}
use codecrafters_kafka_cpp.Core.Hexdump.Widths.{
  Shows-reset, Shows-dim, Shows-cyan, Shows-yellow, Shows-magenta, Shows-box_char, Shows-blank,
  Shows-h_line, Shows-repeat, Shows-digits, length-digits, Shows-hex,
}

-- The inner width for rows of `8 * (k + 1)` bytes.
abbrev pub box_width : ℕ → ℕ
box_width k = 32 * suc k + k + 15

pub inner_width-rows : (k : ℕ) → k < 32 → inner_width (8 * suc k) ≡ box_width k
unfolding inner_width
inner_width-rows k h = omega arith

Shows-vertical : Shows vertical 1
Shows-vertical = Shows-box_char 130 (omega arith) (omega arith)

Shows-horizontal : Shows (box_char 128) 1
Shows-horizontal = Shows-box_char 128 (omega arith) (omega arith)

-- `remaining`, where it does not wrap.
remaining_width :
    (width label : ℕ)
    → width < 2 ^ 64
    → label + 3 ≤ width
    → (width + (2 ^ 64 - (label + 3) % 2 ^ 64)) % 2 ^ 64 ≡ width - (label + 3)
remaining_width width label h k = omega arith

pub top_border-line :
    (title : Bytes) (width : ℕ)
    → width < 2 ^ 64
    → All IsPlain title
    → length title + 3 ≤ width
    → ShowsLines (top_border title width) ((width + 2) ∷ [])
unfolding top_border
top_border-line [] width small plain fits =
    ShowsLines-line (0 + (1 + (width + (1 + (0 + 0))))) (width + 2) (omega arith) (
      Shows-dim
      then_ends Shows-box_char 140 (omega arith) (omega arith)
      then_ends Shows-h_line width
      then_ends Shows-box_char 144 (omega arith) (omega arith)
      then_ends Shows-reset
      then_ends EndsLine-newline)
top_border-line (c ∷ cs) width small plain fits =
    rw (remaining_width width (length (c ∷ cs)) small fits) (
      ShowsLines-line
        (0
          + (1
              + (1
                  + ((1 + (0 + (length (c ∷ cs) + (0 + 1))))
                      + ((width - (length (c ∷ cs) + 3)) + (1 + (0 + 0)))))))
        (width + 2) (omega (arith, fits))
        (Shows-dim
          then_ends Shows-box_char 140 (omega arith) (omega arith)
          then_ends Shows-horizontal
          then_ends (Shows-blank
              then_shows Shows-cyan
              then_shows Shows-text (c ∷ cs) plain
              then_shows Shows-dim
              then_shows Shows-blank)
          then_ends Shows-h_line (width - (length (c ∷ cs) + 3))
          then_ends Shows-box_char 144 (omega arith) (omega arith)
          then_ends Shows-reset
          then_ends EndsLine-newline))

pub separator-line : (width : ℕ) → ShowsLines (separator width) ((width + 2) ∷ [])
unfolding separator
separator-line width =
    ShowsLines-line (0 + (1 + (width + (1 + (0 + 0))))) (width + 2) (omega arith) (
      Shows-dim
      then_ends Shows-box_char 156 (omega arith) (omega arith)
      then_ends Shows-h_line width
      then_ends Shows-box_char 164 (omega arith) (omega arith)
      then_ends Shows-reset
      then_ends EndsLine-newline)

-- The line between two columns, and the one behind the last.
Shows-between : Shows (32 ∷ dim ++ (vertical ++ (reset ++ 32 ∷ []))) (1 + (0 + (1 + (0 + 1))))
Shows-between =
    Shows-blank then_shows Shows-dim then_shows Shows-vertical then_shows Shows-reset
    then_shows Shows-blank

EndsLine-right :
    EndsLine (32 ∷ dim ++ (vertical ++ (reset ++ 10 ∷ []))) (1 + (0 + (1 + (0 + 0)))) []
EndsLine-right =
    Shows-blank then_ends Shows-dim then_ends Shows-vertical then_ends Shows-reset
    then_ends EndsLine-newline

Shows-left :
    (rest : Bytes) (n : ℕ)
    → Shows rest n
    → Shows (dim ++ (vertical ++ (reset ++ (32 ∷ [] ++ rest)))) (n + 2)
Shows-left rest n h =
    Shows-of_eq (0 + (1 + (0 + (1 + n)))) (n + 2) (omega arith) (
      Shows-dim then_shows Shows-vertical then_shows Shows-reset then_shows Shows-blank
      then_shows h)

blanks-fit : (n : ℕ) → n < 2 ^ 63 → blanks n ≡ ok (repeat n b' ')
unfolding blanks
blanks-fit n h = rw (lt→ltb n (2 ^ 63) h) refl

-- Eight columns leave room for the word "ASCII".
pub column_header-line :
    (k : ℕ)
    → k < 32
    → (out : Bytes) × (column_header (8 * suc k) ≡ ok out) × ShowsLines out ((box_width k + 2) ∷ [])
unfolding column_header
column_header-line k h =
    let room : (8 * suc k + (2 ^ 64 - 5)) % 2 ^ 64 ≡ 8 * suc k - 5 = omega arith in
    let padding : blanks ((8 * suc k + (2 ^ 64 - 5)) % 2 ^ 64) ≡ ok (repeat (8 * suc k - 5) b' ') =
      rw room (blanks-fit (8 * suc k - 5) (omega arith)) in
    (
      _,
      rw padding refl,
      ShowsLines-line
          ((10 + 2)
            + ((3 * (8 * suc k) + k)
                + ((1 + (0 + (1 + (0 + 1))))
                    + (5 + ((8 * suc k - 5) + (1 + (0 + (1 + (0 + 0)))))))))
          (box_width k + 2) (omega arith)
          (Shows-left _ 10
              (Shows-text (79 ∷ 102 ∷ 102 ∷ 115 ∷ 101 ∷ 116 ∷ 32 ∷ 32 ∷ 32 ∷ 32 ∷ []) (omega arith))
            then_ends Shows-header_cells k h
            then_ends Shows-between
            then_ends Shows-text (65 ∷ 83 ∷ 67 ∷ 73 ∷ 73 ∷ []) (omega arith)
            then_ends Shows-repeat (8 * suc k - 5) 32 (omega arith)
            then_ends EndsLine-right),
    )

pub dump_row-line :
    (row : Bytes) (offset k : ℕ)
    → All IsByte row
    → offset < 2 ^ 32
    → ShowsLines (dump_row row offset (8 * suc k)) ((box_width k + 2) ∷ [])
unfolding dump_row
dump_row-line row offset k bytes small =
    ShowsLines-line
      (((0 + (8 + (0 + 2))) + 2)
        + ((3 * (8 * suc k) + k)
            + ((1 + (0 + (1 + (0 + 1)))) + (8 * suc k + (1 + (0 + (1 + (0 + 0))))))))
      (box_width k + 2) (omega arith)
      (Shows-left _ (0 + (8 + (0 + 2))) (
          Shows-yellow
          then_shows Shows-hex 97 7 offset (omega arith) (omega arith)
          then_shows Shows-reset
          then_shows Shows-text (32 ∷ 32 ∷ []) (omega arith))
        then_ends Shows-hex_cells row k bytes
        then_ends Shows-between
        then_ends Shows-ascii_cells row (8 * suc k)
        then_ends EndsLine-right)

pub bottom_border-lines :
    (size k : ℕ)
    → k < 32
    → ShowsLines (bottom_border size (box_width k)) ((box_width k + 2) ∷ 0 ∷ [])
unfolding bottom_border
bottom_border-lines size k h =
    let shown = digits 20 size ++ 32 ∷ 98 ∷ 121 ∷ 116 ∷ 101 ∷ 115 ∷ [] in
    let few : length shown ≤ 26 = omega (
      arith,
      length-append (digits 20 size) (32 ∷ 98 ∷ 121 ∷ 116 ∷ 101 ∷ 115 ∷ []),
      length-digits 20 size,
    ) in
    let n = length (digits 20 size) + 6 in
    let same : length shown ≡ n =
      length-append (digits 20 size) (32 ∷ 98 ∷ 121 ∷ 116 ∷ 101 ∷ 115 ∷ []) in
    rw (remaining_width (box_width k) (length shown) (omega arith) (omega (arith, few))) (
      ShowsLines-line
        (0
          + (1
              + (1
                  + ((1 + (0 + (n + (0 + 1))))
                      + ((box_width k - (length shown + 3)) + (1 + (0 + 0)))))))
        (box_width k + 2) (omega (arith, few, same))
        (Shows-dim
          then_ends Shows-box_char 148 (omega arith) (omega arith)
          then_ends Shows-horizontal
          then_ends (Shows-blank
              then_shows Shows-magenta
              then_shows (Shows-digits 20 size
                  then_shows Shows-text (32 ∷ 98 ∷ 121 ∷ 116 ∷ 101 ∷ 115 ∷ []) (omega arith))
              then_shows Shows-dim
              then_shows Shows-blank)
          then_ends Shows-h_line (box_width k - (length shown + 3))
          then_ends Shows-box_char 152 (omega arith) (omega arith)
          then_ends Shows-reset
          then_ends EndsLine-two_newlines))
