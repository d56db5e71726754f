-- ===== src/HttpApi/Server/Concurrency.antt =====
-- Requests that run at the same time, as steps of a system, and the bound of the semaphore.
use dnswatcher.Prelude.{ℕ, ◌+◌, ◌≤◌, ◌≡◌, refl, List, [], ◌∷◌, ◌++◌, Bytes, arith}
use dnswatcher.Contracts.{TraceRequest}
use dnswatcher.Net.{Prefix}
use dnswatcher.HttpApi.Limiters.{
  new_state, Settings, ServerState, limiter_for, ask_limiter, cleaned, found_or_new,
}
use dnswatcher.HttpApi.Server.{
  HttpRequest, ServerLibs, TracerReply, Phase, answered, limited, allowed, running, arrive, ask,
  acquire, finish, advance, client_key,
}

-- The tokens that a request holds.
abbrev pub tokens : Phase → ℕ
tokens running = 1
tokens _ = 0

abbrev pub running_count : List (HttpRequest × Phase) → ℕ
running_count [] = 0
running_count ((req, phase) ∷ requests) = tokens phase + running_count requests

running_count-append :
    (front back : List (HttpRequest × Phase))
    → running_count (front ++ back) ≡ running_count front + running_count back
running_count-append [] back = omega arith
running_count-append ((req, phase) ∷ front) back = omega (arith, running_count-append front back)

module _ (libs : ServerLibs) (cfg : Settings libs.rate) (trusted : List Prefix) where
  abbrev pub System : Type 0
  System = ServerState libs.rate × List (HttpRequest × Phase)

  -- A request arrives, or one of those that are there goes on. Any of them may be the next.
  pub data Step : System → System → Type 0 where
    arrives :
        (now : ℕ) (req : HttpRequest) (state : ServerState libs.rate)
        (requests : List (HttpRequest × Phase))
        → Step
            (state, requests)
            (
              (arrive libs cfg trusted now req state).1,
              (req, (arrive libs cfg trusted now req state).0) ∷ requests,
            )
    advances :
        (now : ℕ) (tracer : TraceRequest → TracerReply) (req : HttpRequest) (phase : Phase)
        (state : ServerState libs.rate) (front back : List (HttpRequest × Phase))
        → Step
            (state, front ++ (req, phase) ∷ back)
            (
              (advance libs cfg trusted now tracer req phase state).1,
              front ++ (req, (advance libs cfg trusted now tracer req phase state).0) ∷ back,
            )

  pub data Reachable : System → Type 0 where
    start : (now : ℕ) → Reachable (new_state libs.rate now, [])
    next : {s t : System} → Reachable s → Step s t → Reachable t

  -- The semaphore counts the running requests, of which there are at most MaxConcurrentTraces.
  pub record IsBounded (s : System) : Type 0 where
    pub counted : s.0.in_flight ≡ running_count s.1
    pub bounded : s.0.in_flight ≤ cfg.max_concurrent

  pub limiter_for-in_flight :
      (now : ℕ) (key : Bytes) (state : ServerState libs.rate)
      → (limiter_for libs.rate cfg now key state).1.in_flight ≡ state.in_flight
  unfolding limiter_for cleaned found_or_new
  limiter_for-in_flight now key state = ground arith

  arrive-tokens :
      (now : ℕ) (req : HttpRequest) (state : ServerState libs.rate)
      → ((arrive libs cfg trusted now req state).1.in_flight ≡ state.in_flight)
        × (tokens (arrive libs cfg trusted now req state).0 ≡ 0)
  unfolding arrive
  arrive-tokens now req state =
      ground (arith, limiter_for-in_flight now (client_key libs cfg trusted req) state)

  -- A stretch of a request moves the semaphore by the tokens that the request takes or gives back.
  advance-tokens :
      (now : ℕ) (tracer : TraceRequest → TracerReply) (req : HttpRequest) (phase : Phase)
      (state : ServerState libs.rate)
      → tokens phase ≤ state.in_flight
      → (advance libs cfg trusted now tracer req phase state).1.in_flight + tokens phase
        ≡ state.in_flight + tokens (advance libs cfg trusted now tracer req phase state).0
  unfolding advance ask ask_limiter acquire finish
  advance-tokens now tracer req (answered response) state h = refl
  advance-tokens now tracer req (limited index) state h = ground arith
  advance-tokens now tracer req allowed state h = ground arith
  advance-tokens now tracer req running state h = omega arith

  advance-bounded :
      (now : ℕ) (tracer : TraceRequest → TracerReply) (req : HttpRequest) (phase : Phase)
      (state : ServerState libs.rate)
      → state.in_flight ≤ cfg.max_concurrent
      → (advance libs cfg trusted now tracer req phase state).1.in_flight ≤ cfg.max_concurrent
  unfolding advance ask ask_limiter acquire finish
  advance-bounded now tracer req (answered response) state h = h
  advance-bounded now tracer req (limited index) state h = ground arith
  advance-bounded now tracer req allowed state h = ground arith
  advance-bounded now tracer req running state h = omega arith

  Step-IsBounded : (s t : System) → Step s t → IsBounded s → IsBounded t
  Step-IsBounded s t (arrives now req state requests) h =
      let (kept, idle) = arrive-tokens now req state in
      record {
        counted = omega (arith, kept, idle, h.counted);
        bounded = omega (arith, kept, h.bounded);
      }
  Step-IsBounded s t (advances now tracer req phase state front back) h =
      let before = running_count-append front ((req, phase) ∷ back) in
      let after =
        running_count-append front
          ((req, (advance libs cfg trusted now tracer req phase state).0) ∷ back) in
      let moved = advance-tokens now tracer req phase state (omega (arith, before, h.counted)) in
      record {
        counted = omega (arith, before, after, moved, h.counted);
        bounded = advance-bounded now tracer req phase state h.bounded;
      }

  -- However requests interleave, the semaphore holds one token for each running request, and no
  -- more than the settings allow are running.
  pub Reachable-IsBounded : (s : System) → Reachable s → IsBounded s
  Reachable-IsBounded s (start now) =
      unfold new_state in record { counted = refl; bounded = omega arith }
  Reachable-IsBounded t (next {s} reached step) =
      Step-IsBounded s t step (Reachable-IsBounded s reached)
