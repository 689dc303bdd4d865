-- ===== src/Metadata/Parser/Places.antt =====
-- Readers that know where they are: what it means that one decodes a run of bytes at a place of a span.
use codecrafters_kafka_cpp.Common.{
  ℕ, ◌+◌, ◌%◌, ◌^◌, ◌<◌, ◌≡◌, ap, ◌∙◌, [], ◌++◌, append_assoc, append-nil, length, length-append,
  Bytes, ok, arith,
}
use codecrafters_kafka_cpp.Core.Reader.{Reader, pure, ◌>>=◌}
use codecrafters_kafka_cpp.Core.Reader.Decodes.{Decodes}
use codecrafters_kafka_cpp.Metadata.Parser.{tell, seek}

-- Where `bytes` stands at `place`, the reader returns `a` and leaves the offset behind them.
pub record DecodesAt {A : Type 0} (r : Reader A) (place : ℕ) (bytes : Bytes) (a : A) : Type 0 where
  pub run :
      (before after : Bytes)
      → length before ≡ place
      → place + length bytes + length after < 2 ^ 64
      → r (before ++ (bytes ++ after)) place ≡ ok (a, place + length bytes)

pub DecodesAt-Decodes :
    {A : Type 0} (r : Reader A) (place : ℕ) {bytes : Bytes} {a : A}
    → Decodes r bytes a
    → DecodesAt r place bytes a
DecodesAt-Decodes r place d = record {
  run = λ before after e h. rw (← e) (d.run before after (omega arith));
}

pub DecodesAt-tell : (place : ℕ) → DecodesAt tell place [] place
unfolding tell
DecodesAt-tell place = record {
  run = λ before after e h. ap (λ (n : ℕ). ok (place, n)) (omega arith);
}

pub DecodesAt-pure : {A : Type 0} (a : A) (place : ℕ) → DecodesAt (pure a) place [] a
DecodesAt-pure a place = record {
  run = λ before after e h. ap (λ (n : ℕ). ok (a, n)) (omega arith);
}

-- A jump behind some bytes, whatever they are.
pub DecodesAt-seek :
    (n place : ℕ) (bytes : Bytes)
    → n ≡ (place + length bytes) % 2 ^ 64
    → DecodesAt (seek n) place bytes tt
unfolding seek
DecodesAt-seek n place bytes e = record {
  run = λ before after at h. ap (λ (m : ℕ). ok (tt, m)) (omega arith);
}

pub DecodesAt-bind :
    {A B : Type 0} (m : Reader A) (f : A → Reader B) (place : ℕ) {xs ys : Bytes} (a : A) {b : B}
    → DecodesAt m place xs a
    → DecodesAt (f a) (place + length xs) ys b
    → DecodesAt (m >>= f) place (xs ++ ys) b
DecodesAt-bind m f place {xs} {ys} a {b} d e = record {
  run = λ before after at h.
      let first =
        d.run before (ys ++ after) at
          (omega (arith, length-append xs ys, length-append ys after)) in
      let second =
        e.run (before ++ xs) after (length-append before xs ∙ ap (λ (n : ℕ). n + length xs) at)
          (omega (arith, length-append xs ys)) in
      let sum : place + length xs + length ys ≡ place + length (xs ++ ys) =
        omega (arith, length-append xs ys) in
      rw (append_assoc xs ys after, first)
        ((rw (append_assoc before xs (ys ++ after)) at second) ∙ ap (λ (n : ℕ). ok (b, n)) sum);
}

pub DecodesAt-last :
    {A B : Type 0} (m : Reader A) (f : A → Reader B) (place : ℕ) {xs : Bytes} (a : A) {b : B}
    → DecodesAt m place xs a
    → DecodesAt (f a) (place + length xs) [] b
    → DecodesAt (m >>= f) place xs b
DecodesAt-last m f place a d e = rw append-nil at (DecodesAt-bind m f place a d e)

-- A reader that does not look where it is, and then one that does.
pub DecodesAt-then :
    {A B : Type 0} (m : Reader A) (f : A → Reader B) (place : ℕ) {xs ys : Bytes} (a : A) {b : B}
    → Decodes m xs a
    → DecodesAt (f a) (place + length xs) ys b
    → DecodesAt (m >>= f) place (xs ++ ys) b
DecodesAt-then m f place a d e = DecodesAt-bind m f place a (DecodesAt-Decodes m place d) e
