-- ===== src/Core/Hexdump/Terminal.antt =====
-- A terminal that counts columns: what the dump looks like, stated without the program.
use codecrafters_kafka_cpp.Common.{
  ℕ, suc, ◌+◌, ◌≤◌, ◌<◌, ◌≡◌, refl, ap, sym, ◌∙◌, List, [], ◌∷◌, ◌++◌, append_assoc, append-nil,
  Bool, true, false, not, ◌&&◌, Bytes, All, length, ltb, leb, ◌==◌, if◌then◌else◌, arith,
}

-- In an escape sequence or not, the column, and the widths of the lines above.
pub record Cursor : Type 0 where
  pub escaped : Bool
  pub column : ℕ
  pub lines : List ℕ

-- An escape sequence ends with "m". Of a character in UTF-8 the first byte takes a column, and the
-- bytes from 128 to 191 that continue it take none.
unfoldable pub put : ℕ → Cursor → Cursor
put byte c =
    if c.escaped
    then record c { escaped = not (byte == b'm') }
    else if byte == 27
    then record c { escaped = true }
    else if byte == 10
    then record { escaped = false; column = 0; lines = c.lines ++ c.column ∷ [] }
    else if leb 128 byte && ltb byte 192
    then c
    else record c { column = suc c.column }

unfoldable pub run : Bytes → Cursor → Cursor
unfolding put
run [] c = c
run (byte ∷ bytes) c = run bytes (put byte c)

abbrev pub cursor : ℕ → List ℕ → Cursor
cursor column lines = record { escaped = false; column = column; lines = lines }

-- The widths of the lines that are ended.
unfoldable pub line_widths : Bytes → List ℕ
unfolding run
line_widths bytes = (run bytes (cursor 0 [])).lines

pub run-append : (xs ys : Bytes) (c : Cursor) → run (xs ++ ys) c ≡ run ys (run xs c)
unfolding run
run-append [] ys c = refl
run-append (x ∷ xs) ys c = run-append xs ys (put x c)

-- The bytes take `n` columns of the line and leave no escape sequence open.
pub record Shows (bytes : Bytes) (n : ℕ) : Type 0 where
  pub moves :
      (column : ℕ) (lines : List ℕ) → run bytes (cursor column lines) ≡ cursor (column + n) lines

-- The bytes are lines of these widths.
pub record ShowsLines (bytes : Bytes) (ns : List ℕ) : Type 0 where
  pub ends : (lines : List ℕ) → run bytes (cursor 0 lines) ≡ cursor 0 (lines ++ ns)

pub Shows-of_eq : {bytes : Bytes} (n m : ℕ) → n ≡ m → Shows bytes n → Shows bytes m
Shows-of_eq n m e h = rw e at h

infixr 5 ◌then_shows◌
pub ◌then_shows◌ : {xs ys : Bytes} {n m : ℕ} → Shows xs n → Shows ys m → Shows (xs ++ ys) (n + m)
◌then_shows◌ {xs} {ys} {n} {m} h k = record {
  moves = λ column lines.
      run-append xs ys (cursor column lines)
      ∙ ap (run ys) (h.moves column lines)
      ∙ k.moves (column + n) lines
      ∙ ap (λ (t : ℕ). cursor t lines) (omega arith);
}

pub Shows-nothing : Shows [] 0
unfolding run
Shows-nothing = record { moves = λ column lines. ap (λ (t : ℕ). cursor t lines) (omega arith) }

-- A byte that can be printed takes one column.
abbrev pub IsPlain : ℕ → Type 0
IsPlain byte = (32 ≤ byte) × (byte ≤ 126)

pub Shows-byte : (byte : ℕ) → IsPlain byte → Shows (byte ∷ []) 1
unfolding run put
Shows-byte byte h = record { moves = λ column lines. ground (arith, h.0, h.1) }

pub Shows-text : (bytes : Bytes) → All IsPlain bytes → Shows bytes (length bytes)
Shows-text [] h = Shows-nothing
Shows-text (b ∷ bytes) h =
    Shows-of_eq (1 + length bytes) _ (omega arith)
      (Shows-byte b h.0 then_shows Shows-text bytes h.1)

-- An escape sequence takes none, and a character of two or three bytes takes one.
pub Shows-escape : (bytes : Bytes) → All (λ b. b < b'm') bytes → Shows (27 ∷ bytes ++ b'm' ∷ []) 0
unfolding run put
Shows-escape bytes h = record {
  moves =
      λ column lines. skipped bytes h column lines ∙ ap (λ (t : ℕ). cursor t lines) (omega arith);
}
  where
    skipped :
        (bs : Bytes)
        → All (λ b. b < b'm') bs
        → (column : ℕ) (lines : List ℕ)
        → run (bs ++ b'm' ∷ []) (record { escaped = true; column = column; lines = lines })
          ≡ cursor column lines
    skipped [] k column lines = refl
    skipped (b ∷ bs) k column lines = ground (arith, k.0, skipped bs k.1 column lines)

pub Shows-two_bytes : (a b : ℕ) → 192 ≤ a → 128 ≤ b → b < 192 → Shows (a ∷ b ∷ []) 1
unfolding run put
Shows-two_bytes a b h k l = record { moves = λ column lines. ground arith }

pub Shows-three_bytes :
    (a b c : ℕ) → 192 ≤ a → 128 ≤ b → b < 192 → 128 ≤ c → c < 192 → Shows (a ∷ b ∷ c ∷ []) 1
unfolding run put
Shows-three_bytes a b c h k l k' l' = record { moves = λ column lines. ground arith }

-- The bytes end the line after `n` more columns; `ns` are lines below it.
pub record EndsLine (bytes : Bytes) (n : ℕ) (ns : List ℕ) : Type 0 where
  pub ends :
      (column : ℕ) (lines : List ℕ)
      → run bytes (cursor column lines) ≡ cursor 0 (lines ++ (column + n) ∷ ns)

pub EndsLine-newline : EndsLine (10 ∷ []) 0 []
unfolding run put
EndsLine-newline = record {
  ends = λ column lines. ap (λ (t : ℕ). cursor 0 (lines ++ t ∷ [])) (omega arith);
}

pub EndsLine-two_newlines : EndsLine (10 ∷ 10 ∷ []) 0 (0 ∷ [])
unfolding run put
EndsLine-two_newlines = record {
  ends = λ column lines.
      ap (cursor 0) (append_assoc lines (column ∷ []) (0 ∷ []))
      ∙ ap (λ (t : ℕ). cursor 0 (lines ++ t ∷ 0 ∷ [])) (omega arith);
}

infixr 5 ◌then_ends◌
pub ◌then_ends◌ :
    {xs ys : Bytes} {n m : ℕ} {ns : List ℕ}
    → Shows xs n
    → EndsLine ys m ns
    → EndsLine (xs ++ ys) (n + m) ns
◌then_ends◌ {xs} {ys} {n} {m} {ns} h k = record {
  ends = λ column lines.
      run-append xs ys (cursor column lines)
      ∙ ap (run ys) (h.moves column lines)
      ∙ k.ends (column + n) lines
      ∙ ap (λ (t : ℕ). cursor 0 (lines ++ t ∷ ns)) (omega arith);
}

pub ShowsLines-line :
    {bytes : Bytes} {ns : List ℕ} (n m : ℕ)
    → n ≡ m
    → EndsLine bytes n ns
    → ShowsLines bytes (m ∷ ns)
ShowsLines-line {bytes} {ns} n m e h = record {
  ends = λ lines. h.ends 0 lines ∙ ap (λ (t : ℕ). cursor 0 (lines ++ t ∷ ns)) (omega (arith, e));
}

infixr 5 ◌then_lines◌
pub ◌then_lines◌ :
    {xs ys : Bytes} {ns ms : List ℕ}
    → ShowsLines xs ns
    → ShowsLines ys ms
    → ShowsLines (xs ++ ys) (ns ++ ms)
◌then_lines◌ {xs} {ys} {ns} {ms} h k = record {
  ends = λ lines.
      run-append xs ys (cursor 0 lines)
      ∙ ap (run ys) (h.ends lines)
      ∙ k.ends (lines ++ ns)
      ∙ ap (cursor 0) (append_assoc lines ns ms);
}

pub ShowsLines-nothing : ShowsLines [] []
unfolding run
ShowsLines-nothing = record { ends = λ lines. ap (cursor 0) (sym (append-nil lines)) }

pub line_widths_of : (bytes : Bytes) (ns : List ℕ) → ShowsLines bytes ns → line_widths bytes ≡ ns
unfolding line_widths
line_widths_of bytes ns h = ap (λ (c : Cursor). c.lines) (h.ends [])
