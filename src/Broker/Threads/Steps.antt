-- ===== src/Broker/Threads/Steps.antt =====
-- What one step of a thread does to the files, and what is left to do after it.
use codecrafters_kafka_cpp.Common.{
  ℕ, ◌≡◌, refl, [], Bool, Bool-cases, inl, inr, Option, none, some, from_le, byteswap, Outcome, ok,
  throws, undefined, out_of_fuel,
}
use codecrafters_kafka_cpp.Common.Returns.{
  Returns, returned, threw, broke, ran_out, Returns-bind, Returns-bind_if,
}
use codecrafters_kafka_cpp.Metadata.Cache.{MetadataCache}
use codecrafters_kafka_cpp.Storage.FileSystem.{FileSystem}
use codecrafters_kafka_cpp.Api.Dto.Request.{Request, deserialize_request}
use codecrafters_kafka_cpp.Api.Dto.Response.{Response, serialize_response}
use codecrafters_kafka_cpp.Api.Handler.{World, print}
use codecrafters_kafka_cpp.Api.Controller.{parse_body}
use codecrafters_kafka_cpp.Api.Router.Extends.{Extends, Extends-refl}
use codecrafters_kafka_cpp.Api.ClientSession.{Received, received, eof, failed, Socket}
use codecrafters_kafka_cpp.Api.Program.{Program, returns, reads, makes, appends, prints, appended}
use codecrafters_kafka_cpp.Api.Program.Pipeline.{route_main}
use codecrafters_kafka_cpp.Api.Program.Ensures.{Gives, Ensures, Appended}
use codecrafters_kafka_cpp.Api.Program.Rules.{Ensured}
use codecrafters_kafka_cpp.Broker.Threads.{
  Thread, waits, works, receive_body, receive_size, send_response, advance,
}

Gives→Returns :
    {A S : Type 0} (P : A → S → Type 0) (r : Outcome A) (s : S)
    → Gives (Unit {0}) P r s
    → Returns (λ a. P a s) r
Gives→Returns P (ok a) s g = returned a g
Gives→Returns P (throws e) s g = threw e
Gives→Returns P undefined s g = broke
Gives→Returns P out_of_fuel s g = ran_out

module _ (fs : FileSystem) (socket : Socket) (cache : MetadataCache) where
  -- A thread at the head of its loop leaves the files as they are, and begins the handling of what it has
  -- parsed, or comes to its end.
  unfoldable pub Arrives : World fs → World fs × Option (Thread fs socket) → Type 0
  Arrives w (w', none) = w'.files ≡ w.files
  Arrives w (w', some (waits peer)) = w'.files ≡ w.files
  Arrives w (w', some (works peer request p)) =
      (w'.files ≡ w.files) × (p ≡ route_main cache request)

  receive_body-Arrives :
      (w : World fs) (size : ℕ) (r : Received × socket.State)
      → Returns (Arrives w) (receive_body fs socket cache w size r)
  unfolding receive_body Arrives print
  receive_body-Arrives w size (eof, peer) = returned _ refl
  receive_body-Arrives w size (failed, peer) = returned _ refl
  receive_body-Arrives w size (received body, peer) =
      Returns-bind (Arrives w) (parse_body deserialize_request body) _
        (λ request. returned _ (refl, refl))

  pub receive_size-Arrives :
      (w : World fs) (r : Received × socket.State)
      → Returns (Arrives w) (receive_size fs socket cache w r)
  unfolding receive_size Arrives print
  receive_size-Arrives w (eof, peer) = returned _ refl
  receive_size-Arrives w (failed, peer) = returned _ refl
  receive_size-Arrives w (received raw, peer) =
      receive_body-Arrives w (byteswap 4 (from_le raw))
        (socket.receive (byteswap 4 (from_le raw)) peer)

  -- A thread that handles a request extends the files, and what is left of the handling still ensures
  -- what the whole of it does.
  unfoldable pub GoesOn :
      (Response → fs.State → Type 0)
      → World fs
      → socket.State
      → Request
      → World fs × Option (Thread fs socket)
      → Type 0
  GoesOn P w peer request (w', none) = Extends fs cache w.files w'.files
  GoesOn P w peer request (w', some (waits peer')) = Extends fs cache w.files w'.files
  GoesOn P w peer request (w', some (works peer' request' p)) =
      Extends fs cache w.files w'.files
      × (peer' ≡ peer)
      × (request' ≡ request)
      × Ensured fs cache (Unit {0}) p P w'.files

  send_response-GoesOn :
      (P : Response → fs.State → Type 0) (w : World fs) (peer : socket.State) (request : Request)
      (response : Response)
      → Returns (GoesOn P w peer request) (send_response fs socket w peer response)
  unfolding send_response GoesOn print
  send_response-GoesOn P w peer request response =
      let sent = socket.send (serialize_response response []) peer in
      elim (Bool-cases sent.0) [
        | inl good ↦ rw good (returned _ (Extends-refl cache w.files))
        | inr bad ↦ rw bad (returned _ (Extends-refl cache w.files))
      ]

  appended-GoesOn :
      (P : Response → fs.State → Type 0) (w : World fs) (peer : socket.State) (request : Request)
      (k : Option Bool → Program Response) (r : Option (Bool × fs.State))
      → Appended fs
          (Extends fs cache)
          (Unit {0})
          (λ good. Ensured fs cache (Unit {0}) (k good) P)
          w.files
          r
      → Returns
          (GoesOn P w peer request)
          (appended fs (λ good v. ok (v, some (works peer request (k good)))) w r)
  unfolding GoesOn
  appended-GoesOn P w peer request k none e = returned _ (Extends-refl cache w.files, refl, refl, e)
  appended-GoesOn P w peer request k (some (good, u)) (moved, e) = returned _ (moved, refl, refl, e)

  pub advance-GoesOn :
      (P : Response → fs.State → Type 0) (w : World fs) (peer : socket.State) (request : Request)
      (p : Program Response)
      → Ensured fs cache (Unit {0}) p P w.files
      → Returns (GoesOn P w peer request) (advance fs socket cache w (works peer request p))
  unfolding advance Ensures print GoesOn
  advance-GoesOn P w peer request (returns r) e =
      Returns-bind (GoesOn P w peer request) r _
        (λ response. send_response-GoesOn P w peer request response)
  advance-GoesOn P w peer request (reads path k) e =
      returned _ (Extends-refl cache w.files, refl, refl, e w.files (Extends-refl cache w.files))
  advance-GoesOn P w peer request (makes path p) e =
      Returns-bind_if (λ (u : fs.State). Extends fs cache w.files u × Ensured fs cache Unit p P u)
        (GoesOn P w peer request) (fs.create_directories path w.files) _
        (Gives→Returns _ (fs.create_directories path w.files) w.files
          (e w.files (Extends-refl cache w.files)))
        (λ u (moved, rest). returned _ (moved, refl, refl, rest))
  advance-GoesOn P w peer request (appends path bytes k) e =
      appended-GoesOn P w peer request k (fs.append_file path bytes w.files)
        (e w.files (Extends-refl cache w.files))
  advance-GoesOn P w peer request (prints l p) e =
      returned _ (Extends-refl cache w.files, refl, refl, e)
