-- ===== src/HttpApi/Logging/Complete.antt =====
-- The log holds every trace that is answered with a result.
use dnswatcher.Prelude.{
  true, some, ℕ, ◌<◌, ◌≤◌, ◌≡◌, refl, List, [], ◌∷◌, ◌++◌, length, Memᴰ, All, String, Bytes, codes,
  equal, equal_iff, arith,
}
use dnswatcher.Strings.{starts_with}
use dnswatcher.Contracts.{TraceRequest, TraceResult}
use dnswatcher.Contracts.Kinds.{OutcomeKind}
use dnswatcher.Net.{Prefix}
use dnswatcher.HttpApi.ClientId.{IgnoredReason, ClientIdentity}
use dnswatcher.HttpApi.Limiters.{Settings, ServerState, ask_limiter}
use dnswatcher.HttpApi.Server.{
  HttpRequest, ServerLibs, TracerReply, traced_ok, running, client_key, arrive, ask, acquire,
  advance, create_trace,
}
use dnswatcher.HttpApi.Server.Answers.{
  answer_status, looked_up, create_trace-IsServed, ask_limiter-in_flight,
}
use dnswatcher.HttpApi.Server.Concurrency.{limiter_for-in_flight}
use dnswatcher.HttpApi.Logging.Key.{IsKeyHash, client_log_key_of-IsKeyHash}
use dnswatcher.HttpApi.Logging.{
  LogValue, LogEvent, outcome_word, ignored_events, identity_of, client_log_key_of, completed_event,
  admitted, logged,
}

-- The names of the outcomes, as backend/internal/trace/engine.go writes them.
pub data IsNamed : OutcomeKind → String → Type 0 where
  success : IsNamed OutcomeKind.success "success"
  timeout : IsNamed OutcomeKind.timeout "timeout"
  loop_detected : IsNamed OutcomeKind.loop_detected "loop_detected"
  max_depth : IsNamed OutcomeKind.max_depth "max_depth"
  unusable_referral : IsNamed OutcomeKind.unusable_referral "unusable_referral"
  nxdomain : IsNamed OutcomeKind.nxdomain "nxdomain"
  servfail : IsNamed OutcomeKind.servfail "servfail"
  refused : IsNamed OutcomeKind.refused "refused"
  not_implemented : IsNamed OutcomeKind.not_implemented "not_implemented"

outcome_word-IsNamed : (kind : OutcomeKind) → IsNamed kind (outcome_word kind)
outcome_word-IsNamed OutcomeKind.success = success
outcome_word-IsNamed OutcomeKind.timeout = timeout
outcome_word-IsNamed OutcomeKind.loop_detected = loop_detected
outcome_word-IsNamed OutcomeKind.max_depth = max_depth
outcome_word-IsNamed OutcomeKind.unusable_referral = unusable_referral
outcome_word-IsNamed OutcomeKind.nxdomain = nxdomain
outcome_word-IsNamed OutcomeKind.servfail = servfail
outcome_word-IsNamed OutcomeKind.refused = refused
outcome_word-IsNamed OutcomeKind.not_implemented = not_implemented

ignored_events-few :
    (reason : IgnoredReason) (key : Bytes) (identity : ClientIdentity)
    → (length (ignored_events reason key identity) ≤ 1)
      × All
          (λ other. other.message ≡ "forwarded_header_ignored")
          (ignored_events reason key identity)
ignored_events-few IgnoredReason.unset key identity = (omega arith, tt)
ignored_events-few IgnoredReason.untrusted_peer key identity = (omega arith, tt)
ignored_events-few IgnoredReason.malformed key identity = (omega arith, (refl, tt))
ignored_events-few IgnoredReason.conflicting_forwarded_headers key identity =
    (omega arith, (refl, tt))
ignored_events-few IgnoredReason.all_trusted_hops key identity = (omega arith, (refl, tt))

module _ (libs : ServerLibs) (sha256 : Bytes → Bytes) (cfg : Settings libs.rate)
    (trusted : List Prefix) (now later duration : ℕ) (tracer : TraceRequest → TracerReply) where
  admitted-running :
      (req : HttpRequest) (state : ServerState libs.rate)
      → equal req.method (codes "POST") ≡ true
      → starts_with req.content_type (codes "application/json") ≡ true
      → (ask_limiter libs.rate later
          (looked_up libs cfg trusted now later tracer req state).0
          (looked_up libs cfg trusted now later tracer req state).1).0
        ≡ true
      → state.in_flight < cfg.max_concurrent
      → (admitted libs sha256 cfg trusted now later duration tracer req state).0 ≡ running
  unfolding admitted advance arrive ask acquire
  admitted-running req state post json rate room = ground (
    arith,
    limiter_for-in_flight libs cfg trusted now (client_key libs cfg trusted req) state,
    ask_limiter-in_flight libs cfg trusted now later tracer
        (looked_up libs cfg trusted now later tracer req state).0
        (looked_up libs cfg trusted now later tracer req state).1,
  )

  -- The event of a report, with the values that its attributes hold.
  pub record IsEventOf (req : HttpRequest) (report : TraceResult) (event : LogEvent) : Type 0 where
    pub message : event.message ≡ "trace_completed"
    pub client_name : Bytes
    pub client_hashed : IsKeyHash libs sha256 trusted req client_name
    pub client : Memᴰ ("client", LogValue.text client_name) event.attributes
    pub qtype : Memᴰ ("qtype", LogValue.text report.qtype) event.attributes
    pub outcome_name : String
    pub named : IsNamed report.final_outcome.kind outcome_name
    pub outcome : Memᴰ ("outcome", LogValue.word outcome_name) event.attributes
    pub hop_count : Memᴰ ("hop_count", LogValue.number (length report.hops)) event.attributes
    pub duration_ms :
        Memᴰ ("duration_ms", LogValue.number report.total_duration_ms) event.attributes

  completed_event-IsEventOf :
      (req : HttpRequest) (report : TraceResult)
      → IsEventOf req report (
          completed_event
            (client_log_key_of libs sha256 cfg trusted now later duration tracer req)
            (identity_of libs sha256 cfg trusted now later duration tracer req)
            report)
  completed_event-IsEventOf req report = record {
    message = refl;
    client_name = client_log_key_of libs sha256 cfg trusted now later duration tracer req;
    client_hashed =
        client_log_key_of-IsKeyHash libs sha256 trusted cfg now later duration tracer req;
    client = Memᴰ.head refl;
    qtype = Memᴰ.tail (Memᴰ.tail (Memᴰ.tail (Memᴰ.head refl)));
    outcome_name = outcome_word report.final_outcome.kind;
    named = outcome_word-IsNamed report.final_outcome.kind;
    outcome = Memᴰ.tail (Memᴰ.tail (Memᴰ.tail (Memᴰ.tail (Memᴰ.head refl))));
    hop_count = Memᴰ.tail (Memᴰ.tail (Memᴰ.tail (Memᴰ.tail (Memᴰ.tail (Memᴰ.head refl)))));
    duration_ms =
        Memᴰ.tail (Memᴰ.tail (Memᴰ.tail (Memᴰ.tail (Memᴰ.tail (Memᴰ.tail (Memᴰ.head refl))))));
  }

  -- The report that a request gets, and its event, the last of those that the request leaves in the
  -- log; those before it are at most one, on the request's headers.
  pub record IsLogged (req : HttpRequest) (state : ServerState libs.rate) : Type 0 where
    pub report : TraceResult
    pub decoded : TraceRequest
    pub alone : libs.decode cfg.body_limit req.body ≡ some (decoded, true)
    pub reported : tracer decoded ≡ traced_ok report
    pub earlier : List LogEvent
    pub event : LogEvent
    pub events :
        logged libs sha256 cfg trusted now later duration tracer req state ≡ earlier ++ event ∷ []
    pub at_most_one : length earlier ≤ 1
    pub on_headers : All (λ other. other.message ≡ "forwarded_header_ignored") earlier
    pub event_of : IsEventOf req report event

  -- A request that runs alone and is answered with the status 200 leaves one trace event in the log,
  -- which holds the hash of the client's key and the type, the outcome, the number of hops and the
  -- duration of its report, and before it at most one event, which is on the headers.
  pub create_trace-IsLogged :
      (req : HttpRequest) (state : ServerState libs.rate)
      → answer_status (create_trace libs cfg trusted now later tracer req state).0 ≡ 200
      → IsLogged req state
  unfolding logged
  create_trace-IsLogged req state h =
      let s = (create_trace-IsServed libs cfg trusted now later tracer req state).0 h in
      let at_end =
        admitted-running req state ((equal_iff req.method (codes "POST")).1 s.posted) s.json
          s.within_rate s.room in
      let identity = identity_of libs sha256 cfg trusted now later duration tracer req in
      let key = client_log_key_of libs sha256 cfg trusted now later duration tracer req in
      record {
        report = s.report;
        decoded = s.decoded;
        alone = s.alone;
        reported = s.reported;
        earlier = ignored_events identity.ignored_reason key identity;
        event = completed_event key identity s.report;
        events = rw (at_end, s.alone, s.reported) refl;
        at_most_one = (ignored_events-few identity.ignored_reason key identity).0;
        on_headers = (ignored_events-few identity.ignored_reason key identity).1;
        event_of = completed_event-IsEventOf req s.report;
      }
