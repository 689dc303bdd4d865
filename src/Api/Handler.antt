-- ===== src/Api/Handler.antt =====
-- src/api/types.hpp: handlers and middlewares, as functions on what they share: the file system and
-- the lines that go to the console. An exception that leaves a handler leaves the thread of the
-- session too and ends the broker, so no state stands beside it.
use codecrafters_kafka_cpp.Common.{ℕ, List, [], ◌∷◌, ◌++◌, Bytes, Outcome, ok, bind}
use codecrafters_kafka_cpp.Storage.FileSystem.{FileSystem}
use codecrafters_kafka_cpp.Api.Dto.Request.{Request}
use codecrafters_kafka_cpp.Api.Dto.Response.{Response}

-- What is printed, by the middlewares, by a session and by `main`: names and texts as bytes. The time
-- that a request took is left out, and so are the texts of errors and the address of a client.
pub data Line : Type 0 where
  rejected : Line
  incoming : Bytes → ℕ → ℕ → Line
  outgoing : Bytes → ℕ → Line
  hexdump : Bytes → Bytes → Line
  disconnected read_error body_error write_error response_sent : Line
  waiting connected accept_error : Line
  topics : ℕ → Line
  dumped : Bytes → Line

module _ (fs : FileSystem) where
  pub record World : Type 0 where
    pub files : fs.State
    pub console : List Line

  abbrev pub M : Type 0 → Type 0
  M A = World → Outcome (A × World)

  abbrev pub HandlerFunc : Type 0
  HandlerFunc = Request → M Response

  abbrev pub MiddlewareFunc : Type 0
  MiddlewareFunc = Request → HandlerFunc → M Response

module _ {fs : FileSystem} where
  unfoldable pub print : Line → World fs → World fs
  print line w = record w { console = w.console ++ line ∷ [] }

  infixl 5 ◌>>=◌
  abbrev pub ◌>>=◌ : {A B : Type 0} → M fs A → (A → M fs B) → M fs B
  ◌>>=◌ m f w = bind (m w) λ (a, w'). f a w'

  abbrev pub pure : {A : Type 0} → A → M fs A
  pure a w = ok (a, w)

  -- A result that does not touch the world.
  abbrev pub lift : {A : Type 0} → Outcome A → M fs A
  lift r w = bind r λ a. ok (a, w)

  -- The loop of a handler over the elements of a vector, with a vector of results.
  unfoldable pub for_each : {A B : Type 0} → (A → M fs B) → List A → M fs (List B)
  for_each f [] = pure []
  for_each f (a ∷ as') = do b ← f a; bs ← for_each f as'; pure (b ∷ bs)
