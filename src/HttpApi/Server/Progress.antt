-- ===== src/HttpApi/Server/Progress.antt =====
-- The stretches of createTrace in backend/internal/httpapi/server.go that lead requests to an answer.
use mathlib.Core.List.{append_assoc, append-nil}
use dnswatcher.Prelude.{
  ℕ, zero, suc, ◌<◌, ◌≡◌, refl, ap, ◌∙◌, List, [], ◌∷◌, ◌++◌, map, arith, All, All-append,
}
use dnswatcher.Contracts.{TraceRequest}
use dnswatcher.Net.{Prefix}
use dnswatcher.HttpApi.Limiters.{Settings, ServerState}
use dnswatcher.HttpApi.Server.{
  HttpRequest, ServerLibs, TracerReply, Phase, Response, answered, limited, allowed, running, ask,
  acquire, finish, advance,
}
use dnswatcher.HttpApi.Server.Concurrency.{
  System, Step, advances, Reachable, next, Reachable-IsBounded, running_count,
}

abbrev pub IsAnsweredPhase : Phase → Type 0
IsAnsweredPhase phase = (response : Response) × (phase ≡ answered response)

-- The stretches that a request has left at most.
abbrev pub stretches_left : Phase → ℕ
stretches_left (answered _) = 0
stretches_left running = 1
stretches_left allowed = 2
stretches_left (limited _) = 3

abbrev AllAnswered : List (HttpRequest × Phase) → Type 0
AllAnswered requests = All (λ r. IsAnsweredPhase r.1) requests

running_count_answered :
    (requests : List (HttpRequest × Phase)) → AllAnswered requests → running_count requests ≡ 0
running_count_answered [] h = refl
running_count_answered ((req, phase) ∷ requests) ((response, e), h) =
    rw e (omega (arith, running_count_answered requests h))

requests_of :
    (front : List (HttpRequest × Phase)) (req : HttpRequest) (phase phase' : Phase)
    (back : List (HttpRequest × Phase))
    → map (λ r. r.0) (front ++ (req, phase) ∷ back) ≡ map (λ r. r.0) (front ++ (req, phase') ∷ back)
requests_of [] req phase phase' back = refl
requests_of ((r, p) ∷ front) req phase phase' back =
    ap (◌∷◌ r) (requests_of front req phase phase' back)

module _ (libs : ServerLibs) (cfg : Settings libs.rate) (trusted : List Prefix) where
  module _ (now : ℕ) (tracer : TraceRequest → TracerReply) where
    -- One of the requests goes on, at the time and with the tracer given; none arrives.
    pub data Stretch : System libs cfg trusted → System libs cfg trusted → Type 0 where
      stretch :
          (req : HttpRequest) (phase : Phase) (state : ServerState libs.rate)
          (front back : List (HttpRequest × Phase))
          → Stretch
              (state, front ++ (req, phase) ∷ back)
              (
                (advance libs cfg trusted now tracer req phase state).1,
                front ++ (req, (advance libs cfg trusted now tracer req phase state).0) ∷ back,
              )

    pub data Stretches (s : System libs cfg trusted) : System libs cfg trusted → Type 0 where
      done : Stretches s s
      more : {t u : System libs cfg trusted} → Stretches s t → Stretch t u → Stretches s u

    Stretches-trans :
        {s t u : System libs cfg trusted} → Stretches s t → Stretches t u → Stretches s u
    Stretches-trans r done = r
    Stretches-trans r (more q step) = more (Stretches-trans r q) step

    Stretch-Step : {s t : System libs cfg trusted} → Stretch s t → Step libs cfg trusted s t
    Stretch-Step (stretch req phase state front back) =
        advances now tracer req phase state front back

    Stretches-Reachable :
        {s t : System libs cfg trusted}
        → Reachable libs cfg trusted s
        → Stretches s t
        → Reachable libs cfg trusted t
    Stretches-Reachable h done = h
    Stretches-Reachable h (more r step) = next (Stretches-Reachable h r) (Stretch-Step step)

    -- A stretch of a request that is not answered brings it nearer to its answer, in every state.
    advance-stretches_left :
        (req : HttpRequest) (phase : Phase) (state : ServerState libs.rate)
        → 0 < stretches_left phase
        → stretches_left (advance libs cfg trusted now tracer req phase state).0
          < stretches_left phase
    unfolding advance ask acquire finish
    advance-stretches_left req (answered response) state h = h
    advance-stretches_left req (limited index) state h = ground arith
    advance-stretches_left req allowed state h = ground arith
    advance-stretches_left req running state h = omega arith

    -- A request among others is answered by stretches of its own.
    record Settles (req : HttpRequest) (front back : List (HttpRequest × Phase))
        (s : System libs cfg trusted) : Type 0 where
      state : ServerState libs.rate
      response : Response
      steps : Stretches s (state, front ++ (req, answered response) ∷ back)

    -- One stretch, and those behind it.
    Settles-advance :
        (req : HttpRequest) (phase : Phase) (front back : List (HttpRequest × Phase))
        (state : ServerState libs.rate)
        → Settles req front back (
          (advance libs cfg trusted now tracer req phase state).1,
          front ++ (req, (advance libs cfg trusted now tracer req phase state).0) ∷ back,
        )
        → Settles req front back (state, front ++ (req, phase) ∷ back)
    Settles-advance req phase front back state h = record {
      state = h.state;
      response = h.response;
      steps = Stretches-trans (more done (stretch req phase state front back)) h.steps;
    }

    settle :
        (fuel : ℕ) (req : HttpRequest) (phase : Phase) (front back : List (HttpRequest × Phase))
        (state : ServerState libs.rate)
        → stretches_left phase < fuel
        → Settles req front back (state, front ++ (req, phase) ∷ back)
    settle zero req phase front back state h = absurd (omega arith)
    settle (suc fuel) req (answered response) front back state h = record {
      state = state;
      response = response;
      steps = done;
    }
    settle (suc fuel) req (limited index) front back state h =
        Settles-advance req (limited index) front back state (
          settle fuel req _ front back _
            (omega (arith, advance-stretches_left req (limited index) state)))
    settle (suc fuel) req allowed front back state h =
        Settles-advance req allowed front back state
          (settle fuel req _ front back _ (omega (arith, advance-stretches_left req allowed state)))
    settle (suc fuel) req running front back state h =
        Settles-advance req running front back state
          (settle fuel req _ front back _ (omega (arith, advance-stretches_left req running state)))

    below : (phase : Phase) → stretches_left phase < 4
    below (answered response) = omega arith
    below (limited index) = omega arith
    below allowed = omega arith
    below running = omega arith

    -- All requests behind the front are answered.
    settle_all :
        (front back : List (HttpRequest × Phase)) (state : ServerState libs.rate)
        → AllAnswered front
        → (t : System libs cfg trusted) × Stretches (state, front ++ back) t
          × AllAnswered t.1
          × (map (λ r. r.0) t.1 ≡ map (λ r. r.0) (front ++ back))
    settle_all front [] state h = ((state, front ++ []), done, rw (append-nil front) h, refl)
    settle_all front ((req, phase) ∷ back) state h =
        let s = settle 4 req phase front back state (below phase) in
        let whole = append_assoc front ((req, answered s.response) ∷ []) back in
        let (t, steps, all, same) =
          settle_all (front ++ (req, answered s.response) ∷ []) back s.state
            (All-append _ front ((req, answered s.response) ∷ []) h ((s.response, refl), tt)) in
        (
          t,
          Stretches-trans s.steps (rw whole at steps),
          all,
          same ∙ ap (map (λ r. r.0)) whole ∙ requests_of front req (answered s.response) phase back,
        )

    -- The stretches of a system's requests that answer all of them, and no other request.
    pub record Settled (s : System libs cfg trusted) : Type 0 where
      pub final : System libs cfg trusted
      pub steps : Stretches s final
      pub answered_all : All (λ r. IsAnsweredPhase r.1) final.1
      pub same_requests : map (λ r. r.0) final.1 ≡ map (λ r. r.0) s.1
      pub idle : final.0.in_flight ≡ 0

    -- No reachable state is a dead end: at any given time and with any given tracer, there are
    -- stretches of the requests that are there which run at that time and with that tracer, answer
    -- all of the requests, and leave no token in the semaphore.
    pub Reachable-Settled : (s : System libs cfg trusted) → Reachable libs cfg trusted s → Settled s
    Reachable-Settled (state, requests) reached =
        let (t, steps, all, same) = settle_all [] requests state tt in
        let bounded = Reachable-IsBounded libs cfg trusted t (Stretches-Reachable reached steps) in
        record {
          final = t;
          steps = steps;
          answered_all = all;
          same_requests = same;
          idle = bounded.counted ∙ running_count_answered t.1 all;
        }
