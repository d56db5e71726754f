-- ===== src/HttpApi/Routes/Untouched.antt =====
-- Which requests can touch the limiters and the semaphore.
use dnswatcher.Prelude.{
  List, ℕ, ◌≡◌, ◌≢◌, refl, ◌∙◌, ◌⊎◌, inl, inr, false, Bool-cases, Bytes, codes, equal, equal_iff,
  arith,
}
use dnswatcher.Strings.{starts_with}
use dnswatcher.Contracts.{TraceRequest}
use dnswatcher.Net.{Prefix}
use dnswatcher.HttpApi.Limiters.{Settings, ServerState}
use dnswatcher.HttpApi.Server.{
  HttpRequest, ServerLibs, TracerReply, Phase, answered, limited, allowed, running, arrive, advance,
  create_trace,
}
use dnswatcher.HttpApi.Routes.{WebLib, Route, route_of, answer_of, serve_route, serve}

-- A request other than a POST of JSON to the trace route.
abbrev pub IsOther : Bytes → HttpRequest → Type 0
IsOther path req =
    (path ≢ codes "/api/v1/traces")
    ⊎ (req.method ≢ codes "POST")
    ⊎ (starts_with req.content_type (codes "application/json") ≡ false)

route_of-traces :
    (web : WebLib) (static_dir method path : Bytes)
    → route_of web static_dir method path ≡ Route.traces
    → path ≡ codes "/api/v1/traces"
unfolding route_of
route_of-traces web static_dir method path e =
    ground (arith, equal_iff path (codes "/api/v1/traces"))

module _ (web : WebLib) (libs : ServerLibs) (cfg : Settings libs.rate) (trusted : List Prefix)
    (static_dir : Bytes) (now later : ℕ) (tracer : TraceRequest → TracerReply) where
  create_trace-state :
      (req : HttpRequest) (state : ServerState libs.rate)
      → (equal req.method (codes "POST") ≡ false)
        ⊎ (starts_with req.content_type (codes "application/json") ≡ false)
      → (create_trace libs cfg trusted now later tracer req state).1 ≡ state
  unfolding create_trace advance arrive
  create_trace-state req state (inl m) = rw m refl
  create_trace-state req state (inr j) = elim (Bool-cases (equal req.method (codes "POST"))) [
    | inl post ↦ rw (post, j) refl
    | inr m ↦ rw m refl
  ]

  create_trace-other :
      (path : Bytes) (req : HttpRequest) (state : ServerState libs.rate)
      → IsOther path req
      → path ≡ codes "/api/v1/traces"
      → (create_trace libs cfg trusted now later tracer req state).1 ≡ state
  create_trace-other path req state (inl off) on = absurd (off on)
  create_trace-other path req state (inr (inl m)) on = create_trace-state req state (
      inl (elim (Bool-cases (equal req.method (codes "POST"))) [
        | inl post ↦ absurd (m ((equal_iff req.method (codes "POST")).0 post))
        | inr ne ↦ ne
      ]))
  create_trace-other path req state (inr (inr j)) on = create_trace-state req state (inr j)

  -- `answer_of` keeps the state.
  answer_of-state :
      (at : Phase × ServerState libs.rate)
      → (answer_of web libs cfg trusted static_dir now later tracer at).1 ≡ at.1
  answer_of-state (answered response, state) = refl
  answer_of-state (limited index, state) = refl
  answer_of-state (allowed, state) = refl
  answer_of-state (running, state) = refl

  serve_route-state :
      (route : Route) (path : Bytes) (req : HttpRequest) (state : ServerState libs.rate)
      → (route ≡ Route.traces
          → (create_trace libs cfg trusted now later tracer req state).1 ≡ state)
      → (serve_route web libs cfg trusted static_dir now later tracer route path req state).1
        ≡ state
  unfolding serve_route
  serve_route-state Route.redirected path req state h = refl
  serve_route-state Route.health_check path req state h = refl
  serve_route-state Route.traces path req state h =
      answer_of-state (create_trace libs cfg trusted now later tracer req state) ∙ h refl
  serve_route-state Route.files path req state h = refl
  serve_route-state Route.missing path req state h = refl

  -- A request other than a POST of JSON to the trace route, a health check for one, leaves the limiters
  -- and the semaphore as they were.
  pub serve-state :
      (path : Bytes) (req : HttpRequest) (state : ServerState libs.rate)
      → IsOther path req
      → (serve web libs cfg trusted static_dir now later tracer path req state).1 ≡ state
  unfolding serve
  serve-state path req state other =
      serve_route-state (route_of web static_dir req.method path) path req state (λ e.
        create_trace-other path req state other (route_of-traces web static_dir req.method path e))
