-- ===== src/HttpApi/Server/Answers.antt =====
-- How a request that runs alone is answered, and what the engine's errors come to.
use dnswatcher.Prelude.{
  ℕ, ◌<◌, ◌≡◌, ◌↔◌, refl, Bool, true, false, List, Option, none, some, codes, equal, equal_iff,
  arith,
}
use dnswatcher.Strings.{starts_with}
use dnswatcher.Contracts.{TraceRequest, TraceResult}
use dnswatcher.Net.{Prefix}
use dnswatcher.HttpApi.Limiters.{Settings, ServerState, limiter_for, ask_limiter}
use dnswatcher.HttpApi.Server.{
  HttpRequest, ServerLibs, TracerReply, traced_ok, policy_failed, other_failed, Phase, answered,
  arrive, ask, acquire, finish, advance, create_trace, client_key, answer_decoded, write_reply,
}
use dnswatcher.HttpApi.Server.Concurrency.{limiter_for-in_flight}

abbrev pub answer_status : Phase → ℕ
answer_status (answered response) = response.status
answer_status _ = 0

module _ (libs : ServerLibs) (cfg : Settings libs.rate) (trusted : List Prefix) (now later : ℕ)
    (tracer : TraceRequest → TracerReply) where
  -- The state behind `limiterFor` of a request.
  abbrev pub looked_up : HttpRequest → ServerState libs.rate → ℕ × ServerState libs.rate
  looked_up req state = limiter_for libs.rate cfg now (client_key libs cfg trusted req) state

  -- The conditions under which a request gets a report.
  pub record IsServed (req : HttpRequest) (state : ServerState libs.rate) : Type 0 where
    pub posted : req.method ≡ codes "POST"
    pub json : starts_with req.content_type (codes "application/json") ≡ true
    pub within_rate :
        (ask_limiter libs.rate later (looked_up req state).0 (looked_up req state).1).0 ≡ true
    pub room : state.in_flight < cfg.max_concurrent
    pub decoded : TraceRequest
    pub alone : libs.decode cfg.body_limit req.body ≡ some (decoded, true)
    pub report : TraceResult
    pub reported : tracer decoded ≡ traced_ok report

  pub ask_limiter-in_flight :
      (index : ℕ) (state : ServerState libs.rate)
      → (ask_limiter libs.rate later index state).1.in_flight ≡ state.in_flight
  unfolding ask_limiter
  ask_limiter-in_flight index state = refl

  -- Every path through the handler gives back the token that it took.
  pub create_trace-in_flight :
      (req : HttpRequest) (state : ServerState libs.rate)
      → (create_trace libs cfg trusted now later tracer req state).1.in_flight ≡ state.in_flight
  unfolding create_trace advance arrive ask acquire finish
  create_trace-in_flight req state = ground (
    arith,
    limiter_for-in_flight libs cfg trusted now (client_key libs cfg trusted req) state,
    ask_limiter-in_flight (looked_up req state).0 (looked_up req state).1,
  )

  write_reply-report :
      (reply : TracerReply)
      → (write_reply reply).status ≡ 200
      → (report : TraceResult) × (reply ≡ traced_ok report)
  unfolding write_reply
  write_reply-report (traced_ok report) h = (report, refl)
  write_reply-report (policy_failed err) h = absurd (omega (arith, h))
  write_reply-report (other_failed text) h = absurd (omega (arith, h))

  answer_decoded-report :
      (body : Option (TraceRequest × Bool))
      → (answer_decoded libs cfg trusted tracer body).status ≡ 200
      → (req : TraceRequest) × (report : TraceResult) × (body ≡ some (req, true))
        × (tracer req ≡ traced_ok report)
  unfolding answer_decoded
  answer_decoded-report none h = absurd (omega (arith, h))
  answer_decoded-report (some (req, false)) h = absurd (omega (arith, h))
  answer_decoded-report (some (req, true)) h =
      let (report, reported) = write_reply-report (tracer req) h in (req, report, refl, reported)

  -- The guards of the handler, and what they let through.
  record Passes (req : HttpRequest) (state : ServerState libs.rate) : Type 0 where
    post : equal req.method (codes "POST") ≡ true
    json : starts_with req.content_type (codes "application/json") ≡ true
    within_rate :
        (ask_limiter libs.rate later (looked_up req state).0 (looked_up req state).1).0 ≡ true
    room : state.in_flight < cfg.max_concurrent
    ok : (answer_decoded libs cfg trusted tracer (libs.decode cfg.body_limit req.body)).status ≡ 200

  create_trace-Passes :
      (req : HttpRequest) (state : ServerState libs.rate)
      → (answer_status (create_trace libs cfg trusted now later tracer req state).0 ≡ 200)
        ↔ Passes req state
  unfolding create_trace advance arrive ask acquire finish
  create_trace-Passes req state = ground (
    arith,
    limiter_for-in_flight libs cfg trusted now (client_key libs cfg trusted req) state,
    ask_limiter-in_flight (looked_up req state).0 (looked_up req state).1,
  )

  -- A request that runs alone gets the status 200 exactly if it is a POST of JSON, its client is
  -- within its rate, there is room for one more trace, its body is one request, and the tracer has a
  -- report on it.
  pub create_trace-IsServed :
      (req : HttpRequest) (state : ServerState libs.rate)
      → (answer_status (create_trace libs cfg trusted now later tracer req state).0 ≡ 200)
        ↔ IsServed req state
  create_trace-IsServed req state =
      let (passed, served) = create_trace-Passes req state in
      (
        λ h.
            let p = passed h in
            let (decoded, report, alone, reported) =
              answer_decoded-report (libs.decode cfg.body_limit req.body) p.ok in
            record {
              posted = (equal_iff req.method (codes "POST")).0 p.post;
              json = p.json;
              within_rate = p.within_rate;
              room = p.room;
              decoded = decoded;
              alone = alone;
              report = report;
              reported = reported;
            },
        λ s. served (record {
          post = (equal_iff req.method (codes "POST")).1 s.posted;
          json = s.json;
          within_rate = s.within_rate;
          room = s.room;
          ok = unfold answer_decoded write_reply in rw (s.alone, s.reported) refl;
        }),
      )
