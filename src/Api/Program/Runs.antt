-- ===== src/Api/Program/Runs.antt =====
-- A program that nothing comes between: the laws of `run`.
use codecrafters_kafka_cpp.Common.{
  List, [], ◌∷◌, ◌≡◌, refl, ◌∙◌, Option, none, some, Bool, Outcome, ok, throws, undefined,
  out_of_fuel, bind,
}
use codecrafters_kafka_cpp.Storage.FileSystem.{FileSystem}
use codecrafters_kafka_cpp.Api.Handler as Handler
use codecrafters_kafka_cpp.Api.Handler.{World, M, print}
use codecrafters_kafka_cpp.Api.Program.{
  Program, returns, reads, makes, appends, prints, ◌>>=◌, pure, for_each, appended, run,
}

pub bind-cong :
    {A B : Type 0} (m : Outcome A) (f g : A → Outcome B)
    → ((a : A) → f a ≡ g a)
    → bind m f ≡ bind m g
bind-cong (ok a) f g h = h a
bind-cong (throws e) f g h = refl
bind-cong undefined f g h = refl
bind-cong out_of_fuel f g h = refl

pub bind_assoc :
    {A B C : Type 0} (m : Outcome A) (f : A → Outcome B) (g : B → Outcome C)
    → bind m (λ a. bind (f a) g) ≡ bind (bind m f) g
bind_assoc (ok a) f g = refl
bind_assoc (throws e) f g = refl
bind_assoc undefined f g = refl
bind_assoc out_of_fuel f g = refl

module _ {fs : FileSystem} where
  appended-bind :
      {A B : Type 0} (next : Option Bool → World fs → Outcome B)
      (before : Option Bool → World fs → Outcome A) (h : A → Outcome B)
      → ((good : Option Bool) (v : World fs) → next good v ≡ bind (before good v) h)
      → (w : World fs) (r : Option (Bool × fs.State))
      → appended fs next w r ≡ bind (appended fs before w r) h
  appended-bind next before h e w none = e none w
  appended-bind next before h e w (some (good, files)) = e (some good) (record w { files = files })

  pub run-then :
      {A B : Type 0} (p : Program A) (f : A → Program B) (w : World fs)
      → run fs (p >>= f) w ≡ bind (run fs p w) λ (a, v). run fs (f a) v
  unfolding run ◌>>=◌
  run-then (returns (ok a)) f w = refl
  run-then (returns (throws e)) f w = refl
  run-then (returns undefined) f w = refl
  run-then (returns out_of_fuel) f w = refl
  run-then (reads path k) f w = run-then (k (fs.read_file path w.files)) f w
  run-then {A} {B} (makes path p) f w =
      bind-cong (fs.create_directories path w.files) _ _
        (λ files. run-then p f (record w { files = files }))
      ∙ bind_assoc (fs.create_directories path w.files) _ _
  run-then (appends path bytes k) f w =
      appended-bind _ (λ good. run fs (k good)) _ (λ good v. run-then (k good) f v) w
        (fs.append_file path bytes w.files)
  run-then (prints l p) f w = run-then p f (print l w)

  -- The program does what the function of the world does.
  abbrev pub RunsAs : {A : Type 0} → Program A → M fs A → Type 0
  RunsAs p m = (w : World fs) → run fs p w ≡ m w

  pub then-RunsAs :
      {A B : Type 0} (p : Program A) (f : A → Program B) (m : M fs A) (g : A → M fs B)
      → RunsAs p m
      → ((a : A) → RunsAs (f a) (g a))
      → RunsAs (p >>= f) (λ w. bind (m w) λ (a, v). g a v)
  then-RunsAs p f m g h k w = run-then p f w ∙ rw (h w) (bind-cong (m w) _ _ (λ (a, v). k a v))

  pub pure-RunsAs : {A : Type 0} (a : A) → RunsAs (pure a) (Handler.pure a)
  unfolding run
  pure-RunsAs a w = refl

  pub for_each-RunsAs :
      {A B : Type 0} (f : A → Program B) (g : A → M fs B)
      → ((a : A) → RunsAs (f a) (g a))
      → (as' : List A) → RunsAs (for_each f as') (Handler.for_each g as')
  unfolding for_each Handler.for_each
  for_each-RunsAs f g h [] = pure-RunsAs []
  for_each-RunsAs {A} {B} f g h (a ∷ as') = then-RunsAs (f a) _ (g a) _ (h a) (λ b.
      then-RunsAs (for_each f as') _ (Handler.for_each g as') _ (for_each-RunsAs f g h as')
        (λ bs. pure-RunsAs (b ∷ bs)))
