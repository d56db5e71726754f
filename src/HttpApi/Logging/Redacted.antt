-- ===== src/HttpApi/Logging/Redacted.antt =====
-- The texts in the log of the service with the engine as its tracer.
use dnswatcher.Prelude.{
  ℕ, ◌≡◌, refl, ◌⊎◌, inl, inr, Bool, true, false, List, [], ◌∷◌, Option, none, some, Bytes, All,
  All-append, Returns,
}
use dnswatcher.Strings.{to_upper}
use dnswatcher.Contracts.{TraceRequest}
use dnswatcher.Policy.Domain.{PolicyError}
use dnswatcher.Policy.Domain.Accepts.{IsSupported, normalize_qtype-IsSupported}
use dnswatcher.Net.{Prefix}
use dnswatcher.Trace.Dns.{Env}
use dnswatcher.Trace.State.{Engine}
use dnswatcher.Trace.Run.{Readings, Traced, done, refused, trace}
use dnswatcher.Trace.Run.Promises.{Accounts, trace-Accounts}
use dnswatcher.HttpApi.ClientId.{IgnoredReason, ClientIdentity}
use dnswatcher.HttpApi.Limiters.{Settings, ServerState}
use dnswatcher.HttpApi.Server.{
  HttpRequest, ServerLibs, TracerReply, traced_ok, policy_failed, other_failed, Phase, answered,
  limited, allowed, running,
}
use dnswatcher.HttpApi.Service.{reply_of, engine_tracer}
use dnswatcher.HttpApi.Logging.Key.{IsKeyHash, client_log_key_of-IsKeyHash}
use dnswatcher.HttpApi.Logging.{
  LogValue, LogEvent, ignored_events, client_log_key_of, reply_event, decoded_events, phase_events,
  logged,
}

module _ (env : Env) (e : Engine) (is_ip_literal : Bytes → Bool) (readings : Readings) where
  -- A result for a supported type, or an error of the input policy.
  abbrev IsReply : TracerReply → Type 0
  IsReply (traced_ok result) = IsSupported result.qtype
  IsReply (policy_failed err) = Unit {0}
  IsReply (other_failed error) = ⊥

  reply_of-IsReply :
      (req : TraceRequest) (traced : Option Traced)
      → Returns (Accounts env e is_ip_literal req) traced
      → IsReply (reply_of traced)
  reply_of-IsReply req none h = h
  reply_of-IsReply req (some (done result)) h =
      (normalize_qtype-IsSupported env.unicode req.qtype h.qtype).0
  reply_of-IsReply req (some (refused err)) h = tt

  engine_tracer-IsReply :
      (req : TraceRequest) → IsReply (engine_tracer env e is_ip_literal readings req)
  unfolding engine_tracer
  engine_tracer-IsReply req =
      reply_of-IsReply req (trace env e is_ip_literal readings req)
        (trace-Accounts env e is_ip_literal readings req)

  module _ (libs : ServerLibs) (sha256 : Bytes → Bytes) (cfg : Settings libs.rate)
      (trusted : List Prefix) (now later duration : ℕ) (req : HttpRequest) where
    abbrev tracer : TraceRequest → TracerReply
    tracer = engine_tracer env e is_ip_literal readings

    -- A request whose type is logged as it came.
    pub record IsRefused (qtype : Bytes) : Type 0 where
      pub decoded : TraceRequest
      pub alone : Bool
      pub body : libs.decode cfg.body_limit req.body ≡ some (decoded, alone)
      pub error : PolicyError
      pub refused_by : tracer decoded ≡ policy_failed error
      pub upper : qtype ≡ to_upper libs.unicode decoded.qtype

    -- A text of the log: the hash of the client's key, a supported type, or the type of a request
    -- that the input policy refused.
    abbrev pub IsRedacted : LogValue → Type 0
    IsRedacted (LogValue.word w) = Unit {0}
    IsRedacted (LogValue.number n) = Unit {0}
    IsRedacted (LogValue.text t) = IsKeyHash libs sha256 trusted req t ⊎ IsSupported t ⊎ IsRefused t

    abbrev pub AreRedacted : List LogEvent → Type 0
    AreRedacted events =
        All (λ event. All (λ attribute. IsRedacted attribute.1) event.attributes) events

    key_hashed :
        IsKeyHash libs sha256 trusted req
          (client_log_key_of libs sha256 cfg trusted now later duration tracer req)
    key_hashed = client_log_key_of-IsKeyHash libs sha256 trusted cfg now later duration tracer req

    ignored_events-AreRedacted :
        (reason : IgnoredReason) (identity : ClientIdentity)
        → AreRedacted (
            ignored_events reason
              (client_log_key_of libs sha256 cfg trusted now later duration tracer req)
              identity)
    ignored_events-AreRedacted IgnoredReason.unset identity = tt
    ignored_events-AreRedacted IgnoredReason.untrusted_peer identity = tt
    ignored_events-AreRedacted IgnoredReason.malformed identity =
        ((tt, (inl key_hashed, (tt, (tt, tt)))), tt)
    ignored_events-AreRedacted IgnoredReason.conflicting_forwarded_headers identity =
        ((tt, (inl key_hashed, (tt, (tt, tt)))), tt)
    ignored_events-AreRedacted IgnoredReason.all_trusted_hops identity =
        ((tt, (inl key_hashed, (tt, (tt, tt)))), tt)

    reply_event-AreRedacted :
        (decoded : TraceRequest) (reply : TracerReply)
        → libs.decode cfg.body_limit req.body ≡ some (decoded, true)
        → tracer decoded ≡ reply
        → IsReply reply
        → AreRedacted
            (reply_event libs sha256 cfg trusted now later duration tracer req decoded reply ∷ [])
    reply_event-AreRedacted decoded (traced_ok result) body given ok_type =
        ((inl key_hashed, (tt, (tt, (inr (inl ok_type), (tt, (tt, (tt, tt))))))), tt)
    reply_event-AreRedacted decoded (policy_failed err) body given h =
        let own : IsRefused (to_upper libs.unicode decoded.qtype) = record {
          decoded = decoded;
          alone = true;
          body = body;
          error = err;
          refused_by = given;
          upper = refl;
        } in
        ((inl key_hashed, (tt, (tt, (inr (inr own), (tt, (tt, tt)))))), tt)
    reply_event-AreRedacted decoded (other_failed error) body given h = absurd h

    decoded_events-AreRedacted :
        (body : Option (TraceRequest × Bool))
        → libs.decode cfg.body_limit req.body ≡ body
        → AreRedacted (decoded_events libs sha256 cfg trusted now later duration tracer req body)
    decoded_events-AreRedacted none given = tt
    decoded_events-AreRedacted (some (decoded, false)) given = tt
    decoded_events-AreRedacted (some (decoded, true)) given =
        reply_event-AreRedacted decoded (tracer decoded) given refl (engine_tracer-IsReply decoded)

    phase_events-AreRedacted :
        (phase : Phase)
        → AreRedacted (phase_events libs sha256 cfg trusted now later duration tracer req phase)
    phase_events-AreRedacted (answered response) = tt
    phase_events-AreRedacted (limited index) = tt
    phase_events-AreRedacted allowed = tt
    phase_events-AreRedacted running =
        decoded_events-AreRedacted (libs.decode cfg.body_limit req.body) refl

    -- With the engine as its tracer, the service logs no text but the hexadecimal form of the first
    -- six bytes of the SHA-256 sum of the client's key, a supported type, and the upper-cased type of
    -- a request that the input policy refused.
    pub logged-AreRedacted :
        (state : ServerState libs.rate)
        → AreRedacted (logged libs sha256 cfg trusted now later duration tracer req state)
    unfolding logged
    logged-AreRedacted state =
        All-append _ (ignored_events _ _ _)
          (phase_events libs sha256 cfg trusted now later duration tracer req _)
          (ignored_events-AreRedacted _ _) (phase_events-AreRedacted _)
