-- ===== src/HttpApi/Server/Isolation.antt =====
-- However requests interleave, no client spends another client's rate.
use dnswatcher.Prelude.{ℕ, ◌≡◌, ◌≢◌, Bool-cases, inl, inr, List, some, Bytes, arith, ltb}
use dnswatcher.Contracts.{TraceRequest}
use dnswatcher.Net.{Prefix}
use dnswatcher.HttpApi.Limiters.{
  new_state, Settings, ServerState, LimiterEntry, find_entry, ask_limiter,
}
use dnswatcher.HttpApi.Limiters.Separate.{
  IsSeparate, limiter_for-IsSeparate, ask_limiter-IsSeparate, limiter_at, ask_limiter-other,
}
use dnswatcher.HttpApi.Server.{
  HttpRequest, ServerLibs, TracerReply, Phase, answered, limited, allowed, running, arrive, ask,
  acquire, finish, advance, client_key,
}
use dnswatcher.HttpApi.Server.Concurrency.{System, Step, arrives, advances, Reachable, start, next}

module _ (libs : ServerLibs) (cfg : Settings libs.rate) (trusted : List Prefix) where
  arrive-IsSeparate :
      (now : ℕ) (req : HttpRequest) (state : ServerState libs.rate)
      → IsSeparate libs.rate state
      → IsSeparate libs.rate (arrive libs cfg trusted now req state).1
  unfolding arrive
  arrive-IsSeparate now req state h =
      ground (
        arith,
        h,
        limiter_for-IsSeparate libs.rate cfg now (client_key libs cfg trusted req) state h,
      )

  ask-IsSeparate :
      (now index : ℕ) (state : ServerState libs.rate)
      → IsSeparate libs.rate state
      → IsSeparate libs.rate (ask libs cfg trusted now index state).1
  unfolding ask
  ask-IsSeparate now index state h =
      ground (arith, ask_limiter-IsSeparate libs.rate now index state h)

  acquire-IsSeparate :
      (state : ServerState libs.rate)
      → IsSeparate libs.rate state
      → IsSeparate libs.rate (acquire libs cfg trusted state).1
  unfolding acquire
  acquire-IsSeparate state h = elim (Bool-cases (ltb state.in_flight cfg.max_concurrent)) [
    | inl room ↦ rw room (record { separate = h.separate })
    | inr full ↦ rw full h
  ]

  advance-IsSeparate :
      (now : ℕ) (tracer : TraceRequest → TracerReply) (req : HttpRequest) (phase : Phase)
      (state : ServerState libs.rate)
      → IsSeparate libs.rate state
      → IsSeparate libs.rate (advance libs cfg trusted now tracer req phase state).1
  unfolding advance finish
  advance-IsSeparate now tracer req (answered response) state h = h
  advance-IsSeparate now tracer req (limited index) state h = ask-IsSeparate now index state h
  advance-IsSeparate now tracer req allowed state h = acquire-IsSeparate state h
  advance-IsSeparate now tracer req running state h = record { separate = h.separate }

  Step-IsSeparate :
      (s t : System libs cfg trusted)
      → Step libs cfg trusted s t
      → IsSeparate libs.rate s.0
      → IsSeparate libs.rate t.0
  Step-IsSeparate s t (arrives now req state requests) h = arrive-IsSeparate now req state h
  Step-IsSeparate s t (advances now tracer req phase state front back) h =
      advance-IsSeparate now tracer req phase state h

  Reachable-IsSeparate :
      (s : System libs cfg trusted) → Reachable libs cfg trusted s → IsSeparate libs.rate s.0
  Reachable-IsSeparate s (start now) = unfold new_state in record { separate = tt }
  Reachable-IsSeparate t (next {s} reached step) =
      Step-IsSeparate s t step (Reachable-IsSeparate s reached)

  -- In every state that the server reaches, `Allow` for one client leaves the limiter of any other
  -- client as it was.
  pub Reachable-ask_limiter :
      (s : System libs cfg trusted)
      → Reachable libs cfg trusted s
      → (now : ℕ) (a b : Bytes) (left right : LimiterEntry) → a ≢ b
      → find_entry a s.0.limiters ≡ some left
      → find_entry b s.0.limiters ≡ some right
      → limiter_at libs.rate right.limiter (ask_limiter libs.rate now left.limiter s.0).1.heap
        ≡ limiter_at libs.rate right.limiter s.0.heap
  Reachable-ask_limiter s reached now a b left right ne ea eb =
      ask_limiter-other libs.rate now a b left right s.0 (Reachable-IsSeparate s reached) ne ea eb
