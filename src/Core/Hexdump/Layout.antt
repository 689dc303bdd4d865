-- ===== src/Core/Hexdump/Layout.antt =====
-- A whole dump is a box.
use codecrafters_kafka_cpp.Common.{
  ℕ, zero, suc, ◌+◌, ◌-◌, ◌*◌, ◌%◌, ◌^◌, ◌≤◌, ◌<◌, ◌≡◌, refl, ap, ◌⊎◌, inl, inr, List, [], ◌∷◌,
  ◌++◌, Bool-cases, Bytes, IsByte, All, length, take, drop, ltb, ltb→lt, if◌then◌else◌, ok, arith,
}
use codecrafters_kafka_cpp.Core.Hexdump.{
  repeat, inner_width, top_border, separator, dump_row, dump_rows, bottom_border, dump,
}
use codecrafters_kafka_cpp.Core.Hexdump.Terminal.{
  IsPlain, ShowsLines, ShowsLines-nothing, ◌then_lines◌, line_widths, line_widths_of,
}
use codecrafters_kafka_cpp.Core.Hexdump.Box.{
  box_width, inner_width-rows, top_border-line, separator-line, column_header-line, dump_row-line,
  bottom_border-lines,
}

All-take : {A : Type 0} (P : A → Type 0) (n : ℕ) (xs : List A) → All P xs → All P (take n xs)
All-take P zero xs h = tt
All-take P (suc n) [] h = tt
All-take P (suc n) (x ∷ xs) h = (h.0, All-take P n xs h.1)

All-drop : {A : Type 0} (P : A → Type 0) (n : ℕ) (xs : List A) → All P xs → All P (drop n xs)
All-drop P zero xs h = h
All-drop P (suc n) [] h = tt
All-drop P (suc n) (x ∷ xs) h = All-drop P n xs h.1

-- As many rows as bytes behind `offset` need.
pub record IsRowCount (size offset bytes_per_row rows : ℕ) : Type 0 where
  pub enough : size ≤ offset + rows * bytes_per_row
  pub needed : (rows ≡ 0) ⊎ (offset + rows * bytes_per_row < size + bytes_per_row)

IsRowCount-suc :
    (size offset per next rows : ℕ)
    → offset < size
    → next ≡ offset + per
    → IsRowCount size next per rows
    → IsRowCount size offset per (suc rows)
IsRowCount-suc size offset per next rows inside e count = record {
  enough = omega (arith, product, count.enough, e);
  needed = inr (elim count.needed [
    | inl none ↦ omega (arith, product, inside, ap (λ (t : ℕ). t * per) none)
    | inr more ↦ omega (arith, product, more, e)
  ]);
}
  where
    product : suc rows * per ≡ per + rows * per
    product = omega arith

-- The rows end within their fuel.
dump_rows-lines :
    (fuel : ℕ) (bytes : Bytes) (k offset : ℕ)
    → k < 32
    → All IsByte bytes
    → length bytes ≤ 2 ^ 32
    → 0 < fuel
    → length bytes < offset + fuel
    → (out : Bytes) × (rows : ℕ) × (dump_rows fuel bytes (8 * suc k) offset ≡ ok out)
      × ShowsLines out (repeat rows (box_width k + 2))
      × IsRowCount (length bytes) offset (8 * suc k) rows
unfolding dump_rows repeat
dump_rows-lines zero bytes k offset small h size some_fuel enough =
    absurd (omega (arith, some_fuel))
dump_rows-lines (suc fuel) bytes k offset small h size some_fuel enough =
    let next = (offset + 8 * suc k) % 2 ^ 64 in
    elim (Bool-cases (ltb offset (length bytes))) [
      | inl inside ↦
          let below = ltb→lt offset (length bytes) inside in
          let there : next ≡ offset + 8 * suc k = omega (arith, below, size) in
          let (out, rows, written, shown, count) =
            dump_rows-lines fuel bytes k next small h size (omega (arith, enough, below))
              (omega (arith, enough, there)) in
          let row_end = if ltb (length bytes) next then length bytes else next in
          let row = take (row_end - offset) (drop offset bytes) in
          (
            dump_row row offset (8 * suc k) ++ out,
            suc rows,
            rw (inside, written) refl,
            dump_row-line row offset k
                  (All-take IsByte _ (drop offset bytes) (All-drop IsByte offset bytes h))
                  (omega (arith, below, size))
                then_lines shown,
            IsRowCount-suc (length bytes) offset (8 * suc k) next rows below there count,
          )
      | inr outside ↦ (
        [],
        0,
        rw outside refl,
        ShowsLines-nothing,
        record { enough = ground (arith, outside); needed = inl refl },
      )
    ]

-- The dump of fewer than 2 ^ 32 + 1 bytes, in rows of a multiple of eight bytes up to 256, under a
-- title of printable characters that is at least three columns narrower than the box, or none, comes
-- to an end. On a terminal that counts columns its lines are the top border, the header, the separator,
-- as many rows as the bytes need, the bottom border and an empty line, and all of them but the last have
-- one width: the inner width and the two borders.
pub dump-line_widths :
    (bytes title : Bytes) (k : ℕ)
    → k < 32
    → All IsByte bytes
    → length bytes ≤ 2 ^ 32
    → All IsPlain title
    → length title + 3 ≤ inner_width (8 * suc k)
    → (out : Bytes) × (rows : ℕ) × (dump bytes title (8 * suc k) ≡ ok out)
      × (line_widths out
          ≡ let w = inner_width (8 * suc k) + 2 in w ∷ w ∷ w ∷ (repeat rows w ++ w ∷ 0 ∷ []))
      × (length bytes ≤ rows * (8 * suc k))
      × (rows * (8 * suc k) < length bytes + 8 * suc k)
unfolding dump
dump-line_widths bytes title k small h size plain fits =
    let width = inner_width-rows k small in
    let (header, headed, header_line) = column_header-line k small in
    let (below, rows, written, row_lines, count) =
      dump_rows-lines (length bytes + 1) bytes k 0 small h size (omega arith) (omega arith) in
    let top = top_border-line title (box_width k) (omega (arith, small)) plain (rw width at fits) in
    (
      top_border title (inner_width (8 * suc k))
          ++ (header
              ++ (separator (inner_width (8 * suc k))
                  ++ (below ++ bottom_border (length bytes) (inner_width (8 * suc k))))),
      rows,
      rw (headed, written) refl,
      rw width (
          line_widths_of _ _ (
            top
            then_lines header_line
            then_lines separator-line (box_width k)
            then_lines row_lines
            then_lines bottom_border-lines (length bytes) k small)),
      omega (arith, count.enough),
      elim count.needed [
        | inl none ↦ omega (arith, ap (λ (t : ℕ). t * (8 * suc k)) none)
        | inr more ↦ omega (arith, more)
      ],
    )
