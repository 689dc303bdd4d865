-- ===== src/Storage/LogFiles/Paths.antt =====
-- Which partition a log file belongs to: `std::format` of the name and the index, read back.
use mathlib.Core.List.{reverse, reverse-append, reverse-reverse, foldl}
use mathlib.Core.List
use native.Mathlib.Nat.{pow-suc}
use codecrafters_kafka_cpp.Common.{
  ℕ, zero, suc, ◌+◌, ◌*◌, ◌-◌, ◌/◌, ◌%◌, ◌^◌, ◌≤◌, ◌<◌, ◌≡◌, refl, sym, ap, ◌∙◌, [], ◌∷◌, ◌++◌,
  append_assoc, All, All-append, All-reverse, true, Bool-cases, inl, inr, Bytes, ltb, if◌then◌else◌,
  arith, lt→ltb,
}
use codecrafters_kafka_cpp.Common.Text.{codes, digits}
use codecrafters_kafka_cpp.Storage.LogFiles.{format_int, dir_path, file_path}

-- The number that decimal digits stand for.
value_of : Bytes → ℕ
value_of = foldl (λ n c. 10 * n + (c - 48)) 0

value_of-snoc : (xs : Bytes) (c : ℕ) → value_of (xs ++ c ∷ []) ≡ 10 * value_of xs + (c - 48)
unfolding value_of
value_of-snoc xs c = go xs 0
  where
    go :
        (ys : Bytes) (n : ℕ)
        → foldl (λ m d. 10 * m + (d - 48)) n (ys ++ c ∷ [])
          ≡ 10 * foldl (λ m d. 10 * m + (d - 48)) n ys + (c - 48)
    go [] n = refl
    go (y ∷ ys) n = go ys (10 * n + (y - 48))

value_of_last :
    (k n : ℕ)
    → value_of (digits (suc k) n)
      ≡ 10 * value_of (if ltb n 10 then [] else digits k (n / 10)) + (48 + n % 10 - 48)
unfolding digits
value_of_last k n = value_of-snoc (if ltb n 10 then [] else digits k (n / 10)) (48 + n % 10)

value_of-digits : (k n : ℕ) → n < 10 ^ suc k → value_of (digits (suc k) n) ≡ n
unfolding value_of
value_of-digits zero n h =
    let small : ltb n 10 ≡ true = lt→ltb n 10 (omega arith) in
    value_of_last zero n ∙ rw small (omega arith)
value_of-digits (suc k) n h = value_of_last (suc k) n ∙ elim (Bool-cases (ltb n 10)) [
  | inl small ↦ rw small (ground arith)
  | inr large ↦
      let higher = value_of-digits k (n / 10) (omega (arith, pow-suc 10 (suc k))) in
      rw (large, higher) (omega arith)
]

-- A dash is no digit.
abbrev IsDigit : ℕ → Type 0
IsDigit c = 48 ≤ c

digits-IsDigit : (k n : ℕ) → All IsDigit (digits k n)
unfolding digits
digits-IsDigit zero n = tt
digits-IsDigit (suc k) n = elim (Bool-cases (ltb n 10)) [
  | inl small ↦ rw small (omega arith, tt)
  | inr large ↦
      rw large
        (All-append IsDigit (digits k (n / 10)) _ (digits-IsDigit k (n / 10)) (omega arith, tt))
]

-- A text behind digits begins at the first dash.
split_at_dash :
    (d d' x y : Bytes)
    → All IsDigit d
    → All IsDigit d'
    → d ++ b'-' ∷ x ≡ d' ++ b'-' ∷ y
    → (d ≡ d') × (x ≡ y)
split_at_dash [] [] x y h h' e = (refl, cc)
split_at_dash [] (c ∷ d') x y h h' e = let same : 45 ≡ c = cc in absurd (omega (arith, same, h'.0))
split_at_dash (c ∷ d) [] x y h h' e = let same : c ≡ 45 = cc in absurd (omega (arith, same, h.0))
split_at_dash (c ∷ d) (c' ∷ d') x y h h' e =
    let tails : d ++ b'-' ∷ x ≡ d' ++ b'-' ∷ y = cc in
    let (ds, xs) = split_at_dash d d' x y h.1 h'.1 tails in (cc (ds, e), xs)

split_at_last_dash :
    (x y d d' : Bytes)
    → All IsDigit d
    → All IsDigit d'
    → x ++ b'-' ∷ d ≡ y ++ b'-' ∷ d'
    → (x ≡ y) × (d ≡ d')
split_at_last_dash x y d d' h h' e =
    let turned : reverse d ++ b'-' ∷ reverse x ≡ reverse d' ++ b'-' ∷ reverse y =
      sym (reversed x d) ∙ ap reverse e ∙ reversed y d' in
    let (ds, xs) =
      split_at_dash (reverse d) (reverse d') (reverse x) (reverse y) (All-reverse IsDigit d h)
        (All-reverse IsDigit d' h') turned in
    (
      sym (reverse-reverse x) ∙ ap reverse xs ∙ reverse-reverse y,
      sym (reverse-reverse d) ∙ ap reverse ds ∙ reverse-reverse d',
    )
  where
    reversed : (z w : Bytes) → reverse (z ++ b'-' ∷ w) ≡ reverse w ++ b'-' ∷ reverse z
    reversed z w =
        reverse-append z (b'-' ∷ w)
        ∙ ap (λ (t : Bytes). t ++ reverse z) (reverse-append (b'-' ∷ []) w)
        ∙ append_assoc (reverse w) (b'-' ∷ []) (reverse z)

-- Logs of different partitions are different files, for indexes that are not negative: a name and an
-- index can be read off the path.
pub file_path_injective :
    (name name' : Bytes) (index index' : ℕ)
    → index < 2 ^ 31
    → index' < 2 ^ 31
    → file_path name index ≡ file_path name' index'
    → (name ≡ name') × (index ≡ index')
unfolding file_path dir_path format_int
file_path_injective name name' index index' h h' e =
    let dirs = List.append_cancel_right _ _ (codes "/00000000000000000000.log") e in
    let logs = List.append_cancel_left (codes "/tmp/kraft-combined-logs/") _ _ dirs in
    let parted : name ++ b'-' ∷ digits 10 index ≡ name' ++ b'-' ∷ digits 10 index' =
      rw (lt→ltb index (2 ^ 31) h, lt→ltb index' (2 ^ 31) h') at logs in
    let (names, ds) =
      split_at_last_dash name name' (digits 10 index) (digits 10 index') (digits-IsDigit 10 index)
        (digits-IsDigit 10 index') parted in
    (
      names,
      sym (value_of-digits 9 index (omega arith))
          ∙ ap value_of ds
          ∙ value_of-digits 9 index' (omega arith),
    )
