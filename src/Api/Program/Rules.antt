-- ===== src/Api/Program/Rules.antt =====
-- The rules of `Ensures` where all that happens to the files is that they are extended.
use codecrafters_kafka_cpp.Common.{
  ◌≡◌, refl, List, [], ◌∷◌, Outcome, ok, throws, undefined, out_of_fuel,
}
use codecrafters_kafka_cpp.Metadata.Cache.{MetadataCache}
use codecrafters_kafka_cpp.Storage.FileSystem.{FileSystem}
use codecrafters_kafka_cpp.Api.Router.Extends.{Extends, Extends-refl, Extends-trans}
use codecrafters_kafka_cpp.Api.Program.{Program, returns, ◌>>=◌, pure, for_each}
use codecrafters_kafka_cpp.Api.Program.Ensures.{Ensures, Ensures-imp, Ensures-then, Ensures-pure}
use codecrafters_kafka_cpp.Api.Program.Answers.{Follows}

module _ (fs : FileSystem) (cache : MetadataCache) where
  -- The others extend the files, and so does the program. A failure gives `F`.
  abbrev pub Ensured :
      {A : Type 0} → Type 0 → Program A → (A → fs.State → Type 0) → fs.State → Type 0
  Ensured F p P s = Ensures fs (Extends fs cache) F p P s

  -- The rule for `>>=`.
  pub step :
      {A B : Type 0} (F : Type 0) (Q : A → fs.State → Type 0) (P : B → fs.State → Type 0)
      (p : Program A) (f : A → Program B) (s : fs.State)
      → Ensured F p Q s
      → ((a : A) (t : fs.State) → Q a t → Ensured F (f a) P t)
      → Ensured F (p >>= f) P s
  step F Q P p f s first rest =
      Ensures-then fs (Extends fs cache) F (Extends-refl cache) (Extends-trans cache) P p f s
        (Ensures-imp fs (Extends fs cache) F Q _ p s rest first)

  pub ended :
      {A : Type 0} (F : Type 0) (P : A → fs.State → Type 0) (a : A) (s : fs.State)
      → ((t : fs.State) → Extends fs cache s t → P a t)
      → Ensured F (pure a) P s
  ended F P a s h = Ensures-pure fs (Extends fs cache) F P a s h

  -- A result that does not touch the files.
  pub lifted :
      {A : Type 0} (F : Type 0) (P : A → fs.State → Type 0) (r : Outcome A) (s : fs.State)
      → F
      → ((a : A) (t : fs.State) → r ≡ ok a → Extends fs cache s t → P a t)
      → Ensured F (returns r) P s
  unfolding Ensures
  lifted F P (ok a) s x h = λ t moved. h a t refl moved
  lifted F P (throws e) s x h = λ t moved. x
  lifted F P undefined s x h = λ t moved. x
  lifted F P out_of_fuel s x h = λ t moved. x

  pub Follows-Extends :
      {A B : Type 0} (S : A → fs.State → B → fs.State → Type 0) (as' : List A) (bs : List B)
      (s t u : fs.State)
      → Follows fs cache S as' s bs t
      → Extends fs cache t u
      → Follows fs cache S as' s bs u
  Follows-Extends S [] [] s t u h moved = Extends-trans cache s t u h moved
  Follows-Extends S [] (b ∷ bs) s t u h moved = elim h [ ]
  Follows-Extends S (a ∷ as') [] s t u h moved = elim h [ ]
  Follows-Extends S (a ∷ as') (b ∷ bs) s t u (v, done, h) moved =
      (v, done, Follows-Extends S as' bs v t u h moved)

  pub for_each-Follows :
      {A B : Type 0} (F : Type 0) (S : A → fs.State → B → fs.State → Type 0) (f : A → Program B)
      → ((a : A) (s : fs.State) → Ensured F (f a) (S a s) s)
      → (as' : List A) (s : fs.State) → Ensured F (for_each f as') (Follows fs cache S as' s) s
  unfolding for_each
  for_each-Follows F S f h [] s = ended F (Follows fs cache S [] s) [] s (λ t moved. moved)
  for_each-Follows F S f h (a ∷ as') s =
      step F (S a s) (Follows fs cache S (a ∷ as') s) (f a) _ s (h a s) (λ b u done.
        step F (Follows fs cache S as' u) (Follows fs cache S (a ∷ as') s) (for_each f as') _ u
          (for_each-Follows F S f h as' u)
          (λ bs v rest.
            ended F (Follows fs cache S (a ∷ as') s) (b ∷ bs) v
              (λ t moved. (u, done, Follows-Extends S as' bs u v t rest moved))))
