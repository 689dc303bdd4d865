-- ===== src/Broker/Threads/Keeps.antt =====
-- A step of the threads keeps what holds of them.
use mathlib.Core.Path.{subst}
use codecrafters_kafka_cpp.Common.{
  ◌≡◌, ap, List, [], ◌∷◌, ◌++◌, Bool, true, false, none, some, All, All-append, All-imp,
}
use codecrafters_kafka_cpp.Common.Returns.{Returns, returned, threw, broke, ran_out}
use codecrafters_kafka_cpp.Storage.FileSystem.{FileSystem}
use codecrafters_kafka_cpp.Storage.LogFiles.Append.{IsReliable}
use codecrafters_kafka_cpp.Api.Dto.Request.{Request}
use codecrafters_kafka_cpp.Api.Dto.Response.{Response}
use codecrafters_kafka_cpp.Api.Handler.{World, waiting, connected, accept_error, print}
use codecrafters_kafka_cpp.Api.Router.Extends.{Extends, Extends-of_eq, Extends-refl, Extends-trans}
use codecrafters_kafka_cpp.Api.ClientSession.{Socket}
use codecrafters_kafka_cpp.Api.Program.{Program}
use codecrafters_kafka_cpp.Api.Program.Pipeline.{route_main}
use codecrafters_kafka_cpp.Api.Program.Ensures.{Ensures-later}
use codecrafters_kafka_cpp.Api.Program.Rules.{Ensured}
use codecrafters_kafka_cpp.Api.Program.Answers.{Answered}
use codecrafters_kafka_cpp.Api.Program.Safety.{route_main-Answered}
use codecrafters_kafka_cpp.Broker.Threads.{
  Thread, waits, works, Threads, Process, running, ended, Moved, advance, after, Step, waited,
  accepted, accept_failed, advanced, Reach, here, later,
}
use codecrafters_kafka_cpp.Broker.Threads.Steps.{
  Arrives, receive_size-Arrives, GoesOn, advance-GoesOn,
}

pub All-split :
    {A : Type 0} (P : A → Type 0) (before : List A) (x : A) (behind : List A)
    → All P (before ++ x ∷ behind)
    → All P before × P x × All P behind
All-split P [] x behind (h, rest) = (tt, h, rest)
All-split P (b ∷ bs) x behind (h, rest) =
    let (first, own, last) = All-split P bs x behind rest in ((h, first), own, last)

module _ {fs : FileSystem} {socket : Socket} where
  abbrev pub Holds : (Threads fs socket → Type 0) → Process fs socket → Type 0
  Holds I (running t) = I t
  Holds I ended = Unit {0}

  -- The broker was at the point `e` on its way from `t₀` to `t`, where a thread had just parsed the
  -- request.
  abbrev pub Arrival : (t₀ e t : Threads fs socket) → socket.State → Request → Type 0
  Arrival t₀ e t peer request =
      Reach fs socket t₀ (running e)
      × Reach fs socket e (running t)
      × Extends fs t.cache e.world.files t.world.files
      × ((before behind : List (Thread fs socket)) × (e.threads
            ≡ before ++ works peer request (route_main t.cache request) ∷ behind))

  -- What is left of the handling of a request ensures the answer to it.
  unfoldable pub IsHandled : (t₀ t : Threads fs socket) → Thread fs socket → Type 0
  IsHandled t₀ t (waits peer) = Unit {0}
  IsHandled t₀ t (works peer request p) =
      (e : Threads fs socket) × Arrival t₀ e t peer request
      × Ensured fs t.cache (Unit {0}) p (Answered fs t.cache request e.world.files) t.world.files

  pub record Inv (t₀ t : Threads fs socket) : Type 0 where
    pub same : t.cache ≡ t₀.cache
    pub extended : Extends fs t.cache t₀.world.files t.world.files
    pub handled : All (IsHandled t₀ t) t.threads

  module _ (reliable : IsReliable fs) (t₀ t : Threads fs socket)
      (reached : Reach fs socket t₀ (running t)) where
    abbrev next : Bool → World fs → List (Thread fs socket) → Threads fs socket
    next a w threads = record t { world = w; threads = threads; accepting = a }

    stays-IsHandled :
        (a : Bool) (w : World fs) (threads : List (Thread fs socket))
        → Step fs socket t (running (next a w threads))
        → Extends fs t.cache t.world.files w.files
        → (thread : Thread fs socket) → IsHandled t₀ t thread
        → IsHandled t₀ (next a w threads) thread
    unfolding IsHandled
    stays-IsHandled a w threads step moved (waits peer) h = tt
    stays-IsHandled a w threads step moved (works peer request p)
          (e, (from, until, grown, there), h) =
        (
          e,
          (
            from,
            later until step,
            Extends-trans t.cache e.world.files t.world.files w.files grown moved,
            there,
          ),
          Ensures-later fs (Extends fs t.cache) (Unit {0}) (Extends-refl t.cache)
              (Extends-trans t.cache) (Answered fs t.cache request e.world.files) p t.world.files
              w.files moved h,
        )

    -- The threads before one that moves stay as they are.
    next-Inv :
        (a : Bool) (w : World fs) (before rest : List (Thread fs socket))
        → Step fs socket t (running (next a w (before ++ rest)))
        → Extends fs t.cache t.world.files w.files
        → Inv t₀ t
        → All (IsHandled t₀ t) before
        → All (IsHandled t₀ (next a w (before ++ rest))) rest
        → Inv t₀ (next a w (before ++ rest))
    next-Inv a w before rest step moved inv first own = record {
      same = inv.same;
      extended = Extends-trans t.cache t₀.world.files t.world.files w.files inv.extended moved;
      handled =
          All-append (IsHandled t₀ (next a w (before ++ rest))) before rest
            (All-imp (stays-IsHandled a w (before ++ rest) step moved) before first) own;
    }

    -- A thread that handles a request makes a step.
    works-Inv :
        (before behind : List (Thread fs socket)) (peer : socket.State) (request : Request)
        (e : Threads fs socket) (r : Moved fs socket)
        → Step fs socket t (after fs socket t before behind r)
        → Arrival t₀ e t peer request
        → Returns
            (GoesOn fs socket t.cache
              (Answered fs t.cache request e.world.files)
              t.world
              peer
              request)
            r
        → Inv t₀ t
        → All (IsHandled t₀ t) before
        → All (IsHandled t₀ t) behind
        → Holds (Inv t₀) (after fs socket t before behind r)
    unfolding GoesOn
    works-Inv before behind peer request e _ step arrival (returned (w, none) moved) inv first
          last =
        next-Inv t.accepting w before behind step moved inv first
          (All-imp (stays-IsHandled t.accepting w (before ++ behind) step moved) behind last)
    works-Inv before behind peer request e _ step arrival (returned (w, some (waits peer')) moved)
          inv first last =
        let threads = before ++ waits peer' ∷ behind in
        next-Inv t.accepting w before (waits peer' ∷ behind) step moved inv first (
          unfold IsHandled in tt,
          All-imp (stays-IsHandled t.accepting w threads step moved) behind last,
        )
    works-Inv before behind peer request e _ step (from, until, grown, there)
          (returned (w, some (works peer' request' p)) (moved, same_peer, same_request, h)) inv
          first last =
        let threads = before ++ works peer' request' p ∷ behind in
        let at_arrival : (front back : List (Thread fs socket)) × (e.threads
              ≡ front ++ works peer' request' (route_main t.cache request') ∷ back) =
          rw (same_peer, same_request) there in
        let answers : Ensured fs t.cache (Unit {0}) p (Answered fs t.cache request' e.world.files)
            w.files =
          rw same_request h in
        let own : IsHandled t₀ (next t.accepting w threads) (works peer' request' p) =
          unfold IsHandled in
          (
            e,
            (
              from,
              later until step,
              Extends-trans t.cache e.world.files t.world.files w.files grown moved,
              at_arrival,
            ),
            answers,
          ) in
        next-Inv t.accepting w before (works peer' request' p ∷ behind) step moved inv first
          (own, All-imp (stays-IsHandled t.accepting w threads step moved) behind last)
    works-Inv before behind peer request e _ step arrival (threw x) inv first last = tt
    works-Inv before behind peer request e _ step arrival broke inv first last = tt
    works-Inv before behind peer request e _ step arrival ran_out inv first last = tt

    -- A thread at the head of its loop makes a step.
    waits-Inv :
        (before behind : List (Thread fs socket)) (r : Moved fs socket)
        → Step fs socket t (after fs socket t before behind r)
        → Returns (Arrives fs socket t.cache t.world) r
        → Inv t₀ t
        → All (IsHandled t₀ t) before
        → All (IsHandled t₀ t) behind
        → Holds (Inv t₀) (after fs socket t before behind r)
    unfolding Arrives
    waits-Inv before behind _ step (returned (w, none) same) inv first last =
        let moved = Extends-of_eq t.cache t.world.files w.files same in
        next-Inv t.accepting w before behind step moved inv first
          (All-imp (stays-IsHandled t.accepting w (before ++ behind) step moved) behind last)
    waits-Inv before behind _ step (returned (w, some (waits peer)) same) inv first last =
        let moved = Extends-of_eq t.cache t.world.files w.files same in
        let threads = before ++ waits peer ∷ behind in
        next-Inv t.accepting w before (waits peer ∷ behind) step moved inv first (
          unfold IsHandled in tt,
          All-imp (stays-IsHandled t.accepting w threads step moved) behind last,
        )
    waits-Inv before behind _ step (returned (w, some (works peer request p)) (same, whole)) inv
          first last =
        let moved = Extends-of_eq t.cache t.world.files w.files same in
        let threads = before ++ works peer request p ∷ behind in
        let own : IsHandled t₀ (next t.accepting w threads) (works peer request p) =
          unfold IsHandled in
          (
            next t.accepting w threads,
            (
              later reached step,
              here,
              Extends-refl t.cache w.files,
              (
                before,
                behind,
                ap (λ (q : Program Response). before ++ works peer request q ∷ behind) whole,
              ),
            ),
            rw whole (route_main-Answered reliable t.cache request w.files),
          ) in
        next-Inv t.accepting w before (works peer request p ∷ behind) step moved inv first
          (own, All-imp (stays-IsHandled t.accepting w threads step moved) behind last)
    waits-Inv before behind _ step (threw x) inv first last = tt
    waits-Inv before behind _ step broke inv first last = tt
    waits-Inv before behind _ step ran_out inv first last = tt

    advanced-Inv :
        (before : List (Thread fs socket)) (thread : Thread fs socket)
        (behind : List (Thread fs socket))
        → Step fs socket t
            (after fs socket t before behind (advance fs socket t.cache t.world thread))
        → Inv t₀ t
        → All (IsHandled t₀ t) before × IsHandled t₀ t thread × All (IsHandled t₀ t) behind
        → Holds
            (Inv t₀)
            (after fs socket t before behind (advance fs socket t.cache t.world thread))
    unfolding IsHandled
    advanced-Inv before (waits peer) behind step inv (first, h, last) =
        waits-Inv before behind (advance fs socket t.cache t.world (waits peer)) step
          (unfold advance in receive_size-Arrives fs socket t.cache t.world (socket.receive 4 peer))
          inv first last
    advanced-Inv before (works peer request p) behind step inv (first, (e, arrival, h), last) =
        works-Inv before behind peer request e
          (advance fs socket t.cache t.world (works peer request p)) step arrival
          (advance-GoesOn fs socket t.cache (Answered fs t.cache request e.world.files) t.world peer
            request p h)
          inv first last

    pub Step-Inv : {q : Process fs socket} → Step fs socket t q → Inv t₀ t → Holds (Inv t₀) q
    unfolding print
    Step-Inv (waited e) inv =
        next-Inv true (print waiting t.world) [] t.threads (waited e)
          (Extends-refl t.cache t.world.files) inv tt
          (All-imp
            (stays-IsHandled true (print waiting t.world) t.threads (waited e)
              (Extends-refl t.cache t.world.files))
            t.threads inv.handled)
    Step-Inv (accepted peer e) inv =
        next-Inv false (print connected t.world) t.threads (waits peer ∷ []) (accepted peer e)
          (Extends-refl t.cache t.world.files) inv inv.handled (unfold IsHandled in tt, tt)
    Step-Inv (accept_failed e) inv =
        next-Inv false (print accept_error t.world) [] t.threads (accept_failed e)
          (Extends-refl t.cache t.world.files) inv tt
          (All-imp
            (stays-IsHandled false (print accept_error t.world) t.threads (accept_failed e)
              (Extends-refl t.cache t.world.files))
            t.threads inv.handled)
    Step-Inv (advanced before thread behind e) inv =
        advanced-Inv before thread behind (advanced before thread behind e) inv (
          All-split (IsHandled t₀ t) before thread behind
            (subst (All (IsHandled t₀ t)) e inv.handled))
