-- ===== src/Api/Program.antt =====
-- The operations that threads share, one at a time. The handlers of src/api are functions of the whole
-- world; where threads interleave, another thread comes between two operations of a handler. A
-- program is a handler cut at these points.
pub mod Controller
pub mod Pipeline
pub mod Runs
pub mod Refines
pub mod Ensures
pub mod Answers
pub mod Rules
pub mod Fetch
pub mod Produce
pub mod Safety
use codecrafters_kafka_cpp.Common.{
  ℕ, List, [], ◌∷◌, ◌++◌, ◌≡◌, refl, ◌∙◌, Bool, Option, none, some, Bytes, Outcome, ok, throws,
  undefined, out_of_fuel, bind,
}
use codecrafters_kafka_cpp.Storage.FileSystem.{FileSystem}
use codecrafters_kafka_cpp.Api.Handler.{Line, World, M, print}

-- `reads` opens and reads a file, `makes` makes directories, `appends` opens a file and writes behind
-- it, with what `file.good()` gives, `prints` prints a line. `returns` is the end.
pub data Program (A : Type 0) : Type 0 where
  returns : Outcome A → Program A
  reads : Bytes → (Option (Option Bytes) → Program A) → Program A
  makes : Bytes → Program A → Program A
  appends : Bytes → Bytes → (Option Bool → Program A) → Program A
  prints : Line → Program A → Program A

infixl 5 ◌>>=◌
unfoldable pub ◌>>=◌ : {A B : Type 0} → Program A → (A → Program B) → Program B
returns (ok a) >>= f = f a
returns (throws e) >>= f = returns (throws e)
returns undefined >>= f = returns undefined
returns out_of_fuel >>= f = returns out_of_fuel
reads path k >>= f = reads path λ content. k content >>= f
makes path p >>= f = makes path (p >>= f)
appends path bytes k >>= f = appends path bytes λ good. k good >>= f
prints l p >>= f = prints l (p >>= f)

abbrev pub pure : {A : Type 0} → A → Program A
pure a = returns (ok a)

unfoldable pub for_each : {A B : Type 0} → (A → Program B) → List A → Program (List B)
unfolding ◌>>=◌
for_each f [] = pure []
for_each f (a ∷ as') = f a >>= λ b. for_each f as' >>= λ bs. pure (b ∷ bs)

module _ (fs : FileSystem) where
  -- What comes of an append: the world behind it, and what is done next.
  abbrev pub appended :
      {A : Type 0} → (Option Bool → World fs → A) → World fs → Option (Bool × fs.State) → A
  appended next w none = next none w
  appended next w (some (good, files)) = next (some good) (record w { files = files })

  -- A program that nothing comes between.
  unfoldable pub run : {A : Type 0} → Program A → M fs A
  run (returns r) w = bind r λ a. ok (a, w)
  run (reads path k) w = run (k (fs.read_file path w.files)) w
  run (makes path p) w =
      bind (fs.create_directories path w.files) λ files. run p (record w { files = files })
  run (appends path bytes k) w =
      appended (λ good. run (k good)) w (fs.append_file path bytes w.files)
  run (prints l p) w = run p (print l w)
