-- ===== src/Broker/Threads/Middle.antt =====
-- One thread makes its steps and the others stand still.
use mathlib.Core.Path.{subst}
use codecrafters_kafka_cpp.Common.{
  ◌≡◌, refl, List, [], ◌∷◌, ◌++◌, Bool, false, Option, none, some, Outcome, ok, Exception, throws,
  undefined, out_of_fuel, bind,
}
use codecrafters_kafka_cpp.Metadata.Cache.{MetadataCache}
use codecrafters_kafka_cpp.Storage.FileSystem.{FileSystem}
use codecrafters_kafka_cpp.Api.Dto.Request.{Request}
use codecrafters_kafka_cpp.Api.Dto.Response.{Response}
use codecrafters_kafka_cpp.Api.Handler.{World, print}
use codecrafters_kafka_cpp.Api.ClientSession.{Socket}
use codecrafters_kafka_cpp.Api.Program.{
  Program, returns, reads, makes, appends, prints, appended, run, pure,
}
use codecrafters_kafka_cpp.Api.Program.Runs.{bind_assoc}
use codecrafters_kafka_cpp.Broker.Threads.{
  Thread, works, Threads, Process, running, ended, Moved, send_response, advance, after, advanced,
  Reach, later,
}

module _ {fs : FileSystem} {socket : Socket} (t₀ : Threads fs socket) (cache : MetadataCache)
    (front back : List (Thread fs socket)) where
  abbrev pub at : World fs → Thread fs socket → Threads fs socket
  at w thread = record {
    cache = cache;
    world = w;
    threads = front ++ thread ∷ back;
    accepting = false;
  }

  -- A step of the thread in the middle, which comes to `m`.
  pub middle_step :
      (w : World fs) (thread : Thread fs socket) (m : Moved fs socket)
      → advance fs socket cache w thread ≡ m
      → Reach fs socket t₀ (running (at w thread))
      → Reach fs socket t₀ (after fs socket (at w thread) front back m)
  middle_step w thread m e reached =
      subst
        (λ (r : Moved fs socket). Reach fs socket t₀ (after fs socket (at w thread) front back r)) e
        (later reached (advanced front thread back refl))

  -- The state in which the thread in the middle has come to `m`.
  abbrev pub middle : Moved fs socket → Process fs socket
  middle m =
      after fs socket (record { cache = cache; world = t₀.world; threads = []; accepting = false })
        front back m

  -- What is left of a handling, and the response sent.
  abbrev pub rest : socket.State → Outcome (Response × World fs) → Moved fs socket
  rest peer r = bind r λ (response, w). send_response fs socket w peer response

  -- A handling with nothing between its operations: what holds at its end and of failures holds of
  -- the whole run.
  module _ (peer : socket.State) (request : Request) (Q : Outcome (Response × World fs) → Type 0)
      (at_end : (r : Outcome Response) (w : World fs)
        → Reach fs socket t₀ (running (at w (works peer request (returns r))))
        → Q (bind r λ response. ok (response, w)))
      (thrown : (e : Exception) → Reach fs socket t₀ ended → Q (throws e))
      (broken : Reach fs socket t₀ ended → Q undefined)
      (lost : Reach fs socket t₀ ended → Q out_of_fuel) where
    made-Reach :
        (p : Program Response) (w : World fs) (r : Outcome fs.State)
        → ((v : World fs)
            → Reach fs socket t₀ (running (at v (works peer request p)))
            → Q (run fs p v))
        → Reach fs socket t₀
            (middle (bind r λ files. ok (record w { files = files }, some (works peer request p))))
        → Q (bind r λ files. run fs p (record w { files = files }))
    made-Reach p w (ok files) next reached = next (record w { files = files }) reached
    made-Reach p w (throws e) next reached = thrown e reached
    made-Reach p w undefined next reached = broken reached
    made-Reach p w out_of_fuel next reached = lost reached

    appended-Reach :
        (k : Option Bool → Program Response) (w : World fs) (r : Option (Bool × fs.State))
        → ((good : Option Bool) (v : World fs)
            → Reach fs socket t₀ (running (at v (works peer request (k good))))
            → Q (run fs (k good) v))
        → Reach fs socket t₀
            (middle (appended fs (λ good v. ok (v, some (works peer request (k good)))) w r))
        → Q (appended fs (λ good v. run fs (k good) v) w r)
    appended-Reach k w none next reached = next none w reached
    appended-Reach k w (some (good, files)) next reached =
        next (some good) (record w { files = files }) reached

    run-Reach :
        (p : Program Response) (w : World fs)
        → Reach fs socket t₀ (running (at w (works peer request p)))
        → Q (run fs p w)
    unfolding advance run
    run-Reach (returns r) w reached = at_end r w reached
    run-Reach (reads path k) w reached =
        run-Reach (k (fs.read_file path w.files)) w
          (middle_step w (works peer request (reads path k)) _ refl reached)
    run-Reach (makes path p) w reached =
        made-Reach p w (fs.create_directories path w.files) (λ v. run-Reach p v)
          (middle_step w (works peer request (makes path p)) _ refl reached)
    run-Reach (appends path bytes k) w reached =
        appended-Reach k w (fs.append_file path bytes w.files) (λ good v. run-Reach (k good) v)
          (middle_step w (works peer request (appends path bytes k)) _ refl reached)
    run-Reach (prints l p) w reached =
        run-Reach p (print l w) (middle_step w (works peer request (prints l p)) _ refl reached)

  -- The response is sent.
  pub handled-Reach :
      (peer : socket.State) (request : Request) (p : Program Response) (w : World fs)
      → Reach fs socket t₀ (running (at w (works peer request p)))
      → Reach fs socket t₀ (middle (rest peer (run fs p w)))
  unfolding advance
  handled-Reach peer request p w reached =
      run-Reach peer request (λ r. Reach fs socket t₀ (middle (rest peer r)))
        (λ r v here_now.
          subst (λ (m : Moved fs socket). Reach fs socket t₀ (middle m))
            (bind_assoc r (λ response. ok (response, v))
              (λ (response, u). send_response fs socket u peer response))
            (middle_step v (works peer request (returns r)) _ refl here_now))
        (λ e gone. gone) (λ gone. gone) (λ gone. gone) p w reached

  -- A handling that comes to a response gets to the point where it is to be sent.
  pub finished-Reach :
      (peer : socket.State) (request : Request) (p : Program Response) (response : Response)
      (w v : World fs)
      → run fs p w ≡ ok (response, v)
      → Reach fs socket t₀ (running (at w (works peer request p)))
      → Reach fs socket t₀ (running (at v (works peer request (pure response))))
  finished-Reach peer request p response w v e reached =
      run-Reach peer request
        (λ r.
          r ≡ ok (response, v)
          → Reach fs socket t₀ (running (at v (works peer request (pure response)))))
        (λ r u here_now. arrived r u here_now) (λ x gone e. cc) (λ gone e. cc) (λ gone e. cc) p w
        reached e
    where
      arrived :
          (r : Outcome Response) (u : World fs)
          → Reach fs socket t₀ (running (at u (works peer request (returns r))))
          → bind {B = Response × World fs} r (λ a. ok (a, u)) ≡ ok (response, v)
          → Reach fs socket t₀ (running (at v (works peer request (pure response))))
      arrived (ok a) u here_now e =
          let same : a ≡ response = cc in let at_v : u ≡ v = cc in rw (same, at_v) at here_now
      arrived (throws x) u here_now e = cc
      arrived undefined u here_now e = cc
      arrived out_of_fuel u here_now e = cc
