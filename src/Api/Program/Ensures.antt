-- ===== src/Api/Program/Ensures.antt =====
-- Rely and guarantee: what a program ensures while other threads move the files between its
-- operations.
use codecrafters_kafka_cpp.Common.{
  Option, none, some, Bool, Outcome, ok, throws, undefined, out_of_fuel,
}
use codecrafters_kafka_cpp.Storage.FileSystem.{FileSystem}
use codecrafters_kafka_cpp.Api.Program.{
  Program, returns, reads, makes, appends, prints, ◌>>=◌, pure,
}

-- A value has the property, and a failure gives `F`.
abbrev pub Gives : {A S : Type 0} → Type 0 → (A → S → Type 0) → Outcome A → S → Type 0
Gives F P (ok a) s = P a s
Gives F P (throws e) s = F
Gives F P undefined s = F
Gives F P out_of_fuel s = F

-- The others move the files along `R` before each operation, and the program moves them along `R`
-- itself. If it comes to a value, that has the property `P` in the files there are then; a failure
-- gives `F`.
module _ (fs : FileSystem) (R : fs.State → fs.State → Type 0) (F : Type 0) where
  abbrev pub Appended :
      (Option Bool → fs.State → Type 0) → fs.State → Option (Bool × fs.State) → Type 0
  Appended next s none = next none s
  Appended next s (some (good, t)) = R s t × next (some good) t

  unfoldable pub Ensures : {A : Type 0} → Program A → (A → fs.State → Type 0) → fs.State → Type 0
  Ensures (returns r) P s = (t : fs.State) → R s t → Gives F P r t
  Ensures (reads path k) P s = (t : fs.State) → R s t → Ensures (k (fs.read_file path t)) P t
  Ensures (makes path p) P s =
      (t : fs.State)
      → R s t
      → Gives F (λ u v. R v u × Ensures p P u) (fs.create_directories path t) t
  Ensures (appends path bytes k) P s =
      (t : fs.State) → R s t → Appended (λ good. Ensures (k good) P) t (fs.append_file path bytes t)
  Ensures (prints l p) P s = Ensures p P s

Gives-imp :
    {A S : Type 0} (F : Type 0) (P Q : A → S → Type 0) (r : Outcome A) (s : S)
    → ((a : A) → P a s → Q a s)
    → Gives F P r s
    → Gives F Q r s
Gives-imp F P Q (ok a) s h g = h a g
Gives-imp F P Q (throws e) s h g = g
Gives-imp F P Q undefined s h g = g
Gives-imp F P Q out_of_fuel s h g = g

module _ (fs : FileSystem) (R : fs.State → fs.State → Type 0) (F : Type 0) where
  Appended-imp :
      (P Q : Option Bool → fs.State → Type 0) (s : fs.State) (r : Option (Bool × fs.State))
      → ((good : Option Bool) (t : fs.State) → P good t → Q good t)
      → Appended fs R F P s r
      → Appended fs R F Q s r
  Appended-imp P Q s none h g = h none s g
  Appended-imp P Q s (some (good, t)) h (moved, g) = (moved, h (some good) t g)

  -- A weaker property.
  pub Ensures-imp :
      {A : Type 0} (P Q : A → fs.State → Type 0) (p : Program A) (s : fs.State)
      → ((a : A) (t : fs.State) → P a t → Q a t)
      → Ensures fs R F p P s
      → Ensures fs R F p Q s
  unfolding Ensures
  Ensures-imp P Q (returns r) s h e = λ t moved. Gives-imp F P Q r t (λ a. h a t) (e t moved)
  Ensures-imp P Q (reads path k) s h e =
      λ t moved. Ensures-imp P Q (k (fs.read_file path t)) t h (e t moved)
  Ensures-imp P Q (makes path p) s h e = λ t moved.
      Gives-imp F _ _ (fs.create_directories path t) t
        (λ u (made, rest). (made, Ensures-imp P Q p u h rest)) (e t moved)
  Ensures-imp P Q (appends path bytes k) s h e = λ t moved.
      Appended-imp _ _ t (fs.append_file path bytes t) (λ good u. Ensures-imp P Q (k good) u h)
        (e t moved)
  Ensures-imp P Q (prints l p) s h e = Ensures-imp P Q p s h e

  module _ (stays : (s : fs.State) → R s s)
      (goes_on : (s t u : fs.State) → R s t → R t u → R s u) where
    -- What others do before the next operation.
    pub Ensures-later :
        {A : Type 0} (P : A → fs.State → Type 0) (p : Program A) (s t : fs.State)
        → R s t
        → Ensures fs R F p P s
        → Ensures fs R F p P t
    unfolding Ensures
    Ensures-later P (returns r) s t m e = λ u moved. e u (goes_on s t u m moved)
    Ensures-later P (reads path k) s t m e = λ u moved. e u (goes_on s t u m moved)
    Ensures-later P (makes path p) s t m e = λ u moved. e u (goes_on s t u m moved)
    Ensures-later P (appends path bytes k) s t m e = λ u moved. e u (goes_on s t u m moved)
    Ensures-later P (prints l p) s t m e = Ensures-later P p s t m e

    -- One program after another.
    pub Ensures-then :
        {A B : Type 0} (P : B → fs.State → Type 0) (p : Program A) (f : A → Program B)
        (s : fs.State)
        → Ensures fs R F p (λ a t. Ensures fs R F (f a) P t) s
        → Ensures fs R F (p >>= f) P s
    unfolding Ensures ◌>>=◌
    Ensures-then P (returns (ok a)) f s e = e s (stays s)
    Ensures-then P (returns (throws x)) f s e = λ t moved. e t moved
    Ensures-then P (returns undefined) f s e = λ t moved. e t moved
    Ensures-then P (returns out_of_fuel) f s e = λ t moved. e t moved
    Ensures-then P (reads path k) f s e =
        λ t moved. Ensures-then P (k (fs.read_file path t)) f t (e t moved)
    Ensures-then P (makes path p) f s e = λ t moved.
        Gives-imp F _ _ (fs.create_directories path t) t
          (λ u (made, rest). (made, Ensures-then P p f u rest)) (e t moved)
    Ensures-then P (appends path bytes k) f s e = λ t moved.
        Appended-imp _ _ t (fs.append_file path bytes t) (λ good u. Ensures-then P (k good) f u)
          (e t moved)
    Ensures-then P (prints l p) f s e = Ensures-then P p f s e

  pub Ensures-pure :
      {A : Type 0} (P : A → fs.State → Type 0) (a : A) (s : fs.State)
      → ((t : fs.State) → R s t → P a t)
      → Ensures fs R F (pure a) P s
  unfolding Ensures
  Ensures-pure P a s h = h
