-- ===== src/HttpApi/Logging.antt =====
-- backend/internal/httpapi/server.go: what createTrace logs, with hashClientKey.
pub mod Key
pub mod Complete
pub mod Redacted
pub mod Tests
use dnswatcher.Prelude.{
  ℕ, Bool, true, false, List, [], ◌∷◌, ◌++◌, Option, none, some, length, take, Bytes, String, codes,
}
use dnswatcher.Strings.{to_upper}
use dnswatcher.Contracts.{TraceRequest, TraceResult}
use dnswatcher.Contracts.Kinds.{OutcomeKind}
use dnswatcher.Net.{Prefix}
use dnswatcher.HttpApi.ClientId.{
  Source, Disposition, IgnoredReason, ClientIdentity, resolve_client_identity,
}
use dnswatcher.HttpApi.Limiters.{Settings, ServerState}
use dnswatcher.HttpApi.Server.{
  HttpRequest, ServerLibs, TracerReply, traced_ok, policy_failed, other_failed, policy_message,
  Phase, answered, limited, allowed, running, arrive, advance,
}
use dnswatcher.Strings.Hex.{hex}

-- A value of an attribute: a word of the source, a text, or a number.
pub data LogValue : Type 0 where
  word : String → LogValue
  text : Bytes → LogValue
  number : ℕ → LogValue

pub record LogEvent : Type 0 where
  pub message : String
  pub attributes : List (String × LogValue)

abbrev pub source_word : Source → String
source_word Source.remote_addr = "remote_addr"
source_word Source.forwarded = "forwarded"
source_word Source.x_forwarded_for = "x_forwarded_for"

abbrev pub disposition_word : Disposition → String
disposition_word Disposition.absent = "absent"
disposition_word Disposition.honored = "honored"
disposition_word Disposition.ignored_untrusted_peer = "ignored_untrusted_peer"
disposition_word Disposition.ignored_malformed = "ignored_malformed"
disposition_word Disposition.ignored_conflict = "ignored_conflict"
disposition_word Disposition.ignored_all_trusted = "ignored_all_trusted"

abbrev pub outcome_word : OutcomeKind → String
outcome_word OutcomeKind.success = "success"
outcome_word OutcomeKind.timeout = "timeout"
outcome_word OutcomeKind.loop_detected = "loop_detected"
outcome_word OutcomeKind.max_depth = "max_depth"
outcome_word OutcomeKind.unusable_referral = "unusable_referral"
outcome_word OutcomeKind.nxdomain = "nxdomain"
outcome_word OutcomeKind.servfail = "servfail"
outcome_word OutcomeKind.refused = "refused"
outcome_word OutcomeKind.not_implemented = "not_implemented"

-- `sha256` is sha256.Sum256 of crypto/sha256.
unfoldable pub hash_client_key : (Bytes → Bytes) → Bytes → Bytes
hash_client_key sha256 input = hex (take 6 (sha256 input))

abbrev pub ignored_event : String → Bytes → ClientIdentity → List LogEvent
ignored_event reason client_log_key identity =
    record {
      message = "forwarded_header_ignored";
      attributes =
          ("reason", LogValue.word reason)
          ∷ ("client", LogValue.text client_log_key)
          ∷ ("client_source", LogValue.word (source_word identity.source))
          ∷ ("forwarded_headers", LogValue.word (disposition_word identity.disposition))
          ∷ [];
    }
    ∷ []

-- `logForwardedHeaderDisposition`
abbrev pub ignored_events : IgnoredReason → Bytes → ClientIdentity → List LogEvent
ignored_events IgnoredReason.unset client_log_key identity = []
ignored_events IgnoredReason.untrusted_peer client_log_key identity = []
ignored_events IgnoredReason.malformed client_log_key identity =
    ignored_event "malformed" client_log_key identity
ignored_events IgnoredReason.conflicting_forwarded_headers client_log_key identity =
    ignored_event "conflicting_forwarded_headers" client_log_key identity
ignored_events IgnoredReason.all_trusted_hops client_log_key identity =
    ignored_event "all_trusted_hops" client_log_key identity

abbrev pub failed_event : Bytes → ClientIdentity → Bytes → ℕ → LogValue → LogEvent
failed_event client_log_key identity qtype duration error = record {
  message = "trace_failed";
  attributes =
      ("client", LogValue.text client_log_key)
      ∷ ("client_source", LogValue.word (source_word identity.source))
      ∷ ("forwarded_headers", LogValue.word (disposition_word identity.disposition))
      ∷ ("qtype", LogValue.text qtype)
      ∷ ("duration", LogValue.number duration)
      ∷ ("error", error)
      ∷ [];
}

abbrev pub completed_event : Bytes → ClientIdentity → TraceResult → LogEvent
completed_event client_log_key identity result = record {
  message = "trace_completed";
  attributes =
      ("client", LogValue.text client_log_key)
      ∷ ("client_source", LogValue.word (source_word identity.source))
      ∷ ("forwarded_headers", LogValue.word (disposition_word identity.disposition))
      ∷ ("qtype", LogValue.text result.qtype)
      ∷ ("outcome", LogValue.word (outcome_word result.final_outcome.kind))
      ∷ ("hop_count", LogValue.number (length result.hops))
      ∷ ("duration_ms", LogValue.number result.total_duration_ms)
      ∷ [];
}

-- `duration` is the time since the request started, which only a failure logs.
module _ (libs : ServerLibs) (sha256 : Bytes → Bytes) (cfg : Settings libs.rate)
    (trusted : List Prefix) (now later duration : ℕ) (tracer : TraceRequest → TracerReply) where
  abbrev pub identity_of : HttpRequest → ClientIdentity
  identity_of req =
      resolve_client_identity libs.unicode libs.texts req.remote_addr req.header trusted

  abbrev pub client_log_key_of : HttpRequest → Bytes
  client_log_key_of req = hash_client_key sha256 (identity_of req).address

  abbrev pub reply_event : HttpRequest → TraceRequest → TracerReply → LogEvent
  reply_event req decoded (traced_ok result) =
      completed_event (client_log_key_of req) (identity_of req) result
  reply_event req decoded (policy_failed err) =
      failed_event (client_log_key_of req) (identity_of req) (to_upper libs.unicode decoded.qtype)
        duration (LogValue.word (policy_message err))
  reply_event req decoded (other_failed error) =
      failed_event (client_log_key_of req) (identity_of req) (to_upper libs.unicode decoded.qtype)
        duration (LogValue.text error)

  -- A body that is not one request is not traced, nor logged.
  abbrev pub decoded_events : HttpRequest → Option (TraceRequest × Bool) → List LogEvent
  decoded_events req none = []
  decoded_events req (some (decoded, false)) = []
  decoded_events req (some (decoded, true)) = reply_event req decoded (tracer decoded) ∷ []

  abbrev pub phase_events : HttpRequest → Phase → List LogEvent
  phase_events req (answered response) = []
  phase_events req (limited index) = []
  phase_events req allowed = []
  phase_events req running = decoded_events req (libs.decode cfg.body_limit req.body)

  -- Where the request stands behind the semaphore.
  unfoldable pub admitted : HttpRequest → ServerState libs.rate → Phase × ServerState libs.rate
  admitted req state =
      let arrived = arrive libs cfg trusted now req state in
      let asked = advance libs cfg trusted later tracer req arrived.0 arrived.1 in
      advance libs cfg trusted later tracer req asked.0 asked.1

  -- What `createTrace` logs for a request that runs alone.
  unfoldable pub logged : HttpRequest → ServerState libs.rate → List LogEvent
  logged req state =
      ignored_events (identity_of req).ignored_reason (client_log_key_of req) (identity_of req)
      ++ phase_events req (admitted req state).0
