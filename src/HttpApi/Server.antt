-- ===== src/HttpApi/Server.antt =====
-- backend/internal/httpapi/server.go: NewServer, createTrace and writeTraceError. A request goes
-- through phases, between which other requests may run; `create_trace` is a request that runs alone.
pub mod Answers
pub mod Concurrency
pub mod Isolation
pub mod Progress
pub mod Statuses
pub mod Tests
use dnswatcher.Prelude.{
  ℕ, zero, suc, ℤ, pos, negsuc, quotient, ◌>>=◌, ◌+◌, ◌-◌, ◌*◌, Bool, true, false, not, List, [],
  ◌∷◌, ◌++◌, Option, none, some, ltb, leb, ◌==◌, if◌then◌else◌, Bytes, String, codes, equal, length,
}
use dnswatcher.Strings.{Unicode, starts_with}
use dnswatcher.Contracts.{TraceRequest, TraceResult, ErrorResponse}
use dnswatcher.Policy.Domain.{PolicyError}
use dnswatcher.Net.{Prefix, Texts}
use dnswatcher.HttpApi.ClientId.{Header, resolve_client_identity}
use dnswatcher.HttpApi.Limiters.{RateLib, Settings, ServerState, limiter_for, ask_limiter}

-- The settings of `Config` that `NewServer` reads, as they come.
pub record ServerConfig : Type 0 where
  pub body_limit_bytes : ℤ
  pub rate_limit_per_minute : ℤ
  pub burst : ℤ
  pub max_concurrent_traces : ℤ

abbrev pub or_default : ℤ → ℤ → ℤ
or_default (pos zero) fallback = fallback
or_default (pos (suc n)) fallback = pos (suc n)
or_default (negsuc n) fallback = negsuc n

-- Durations are in nanoseconds.
abbrev pub minute : ℕ
minute = 60 * 1000000000

-- `time.Minute / time.Duration(perMinute)`
unfoldable pub period_of : ℤ → ℤ
period_of per_minute = quotient (pos minute) (or_default per_minute (pos 20))

-- The size of a channel; `make` panics at a negative one.
abbrev pub channel_size : ℤ → Option ℕ
channel_size (pos n) = some n
channel_size (negsuc n) = none

-- `NewServer`, or its panic.
unfoldable pub new_settings : (lib : RateLib) → ServerConfig → Option (Settings lib)
new_settings lib cfg = do
  max_concurrent ← channel_size (or_default cfg.max_concurrent_traces (pos 8))
  some (record {
    body_limit = or_default cfg.body_limit_bytes (pos 2048);
    limiter_rate = lib.every (period_of cfg.rate_limit_per_minute);
    limiter_burst = or_default cfg.burst (pos 5);
    limiter_ttl = 15 * minute;
    limiter_cleanup_interval = 5 * minute;
    max_concurrent = max_concurrent;
  })

pub record HttpRequest : Type 0 where
  pub remote_addr : Bytes
  pub header : Header
  pub method : Bytes
  pub content_type : Bytes
  pub body : Bytes

pub data Payload : Type 0 where
  error_payload : ErrorResponse → Payload
  result_payload : TraceResult → Payload

-- `retry_after` is the Retry-After header in seconds.
pub record Response : Type 0 where
  pub status : ℕ
  pub retry_after : Option ℕ
  pub payload : Payload

-- What a `Tracer` returns: a result, an error that is one of the policy's, or another error, with its text.
pub data TracerReply : Type 0 where
  traced_ok : TraceResult → TracerReply
  policy_failed : PolicyError → TracerReply
  other_failed : Bytes → TracerReply

-- `decode` is the first `Decode` on a body with a limit; its flag is that the second one returns
-- `io.EOF`.
pub record ServerLibs : Type 1 where
  pub rate : RateLib
  pub unicode : Unicode
  pub texts : Texts
  pub decode : ℤ → Bytes → Option (TraceRequest × Bool)

abbrev pub error_response : ℕ → Option ℕ → String → String → Response
error_response status retry_after error message = record {
  status = status;
  retry_after = retry_after;
  payload = error_payload (record { error = error; message = message });
}

-- `err.Error()` of the policy's errors.
abbrev pub policy_message : PolicyError → String
policy_message PolicyError.invalid_domain = "invalid domain input"
policy_message PolicyError.unsupported_qtype = "unsupported query type"
policy_message PolicyError.special_use_domain = "special-use domain is not allowed"
policy_message PolicyError.ip_literal_domain = "ip literals are not allowed"
policy_message PolicyError.domain_too_many_labels = "domain has too many labels"

-- The end of `createTrace`, with `writeTraceError` for an error.
unfoldable pub write_reply : TracerReply → Response
write_reply (traced_ok result) = record {
  status = 200;
  retry_after = none;
  payload = result_payload result;
}
write_reply (policy_failed err) =
    error_response 400 none "invalid_domain_input" (policy_message err)
write_reply (other_failed text) =
    error_response 500 none "internal_error" "The trace service encountered an unexpected error."

-- Where a request stands: answered, behind `limiterFor` with its limiter, behind `Allow`, or behind
-- the send to the semaphore.
pub data Phase : Type 0 where
  answered : Response → Phase
  limited : ℕ → Phase
  allowed running : Phase

module _ (libs : ServerLibs) (cfg : Settings libs.rate) (trusted : List Prefix) where
  abbrev pub client_key : HttpRequest → Bytes
  client_key req =
      (resolve_client_identity libs.unicode libs.texts req.remote_addr req.header trusted).address

  unfoldable pub arrive : ℕ → HttpRequest → ServerState libs.rate → Phase × ServerState libs.rate
  arrive now req state =
      if not (equal req.method (codes "POST"))
      then (
        answered (error_response 405 none "method_not_allowed" "Use POST /api/v1/traces."),
        state,
      )
      else if not (starts_with req.content_type (codes "application/json"))
      then (
        answered (
            error_response 415 none "unsupported_media_type"
              "Requests must use Content-Type: application/json."),
        state,
      )
      else (let got = limiter_for libs.rate cfg now (client_key req) state in
          (limited got.0, got.1))

  unfoldable pub ask : ℕ → ℕ → ServerState libs.rate → Phase × ServerState libs.rate
  ask now index state =
      let asked = ask_limiter libs.rate now index state in
      if not asked.0
      then (
        answered (
            error_response 429 (some 60) "rate_limited"
              "Too many trace requests. Please retry later."),
        asked.1,
      )
      else (allowed, asked.1)

  -- The `select` on the semaphore.
  unfoldable pub acquire : ServerState libs.rate → Phase × ServerState libs.rate
  acquire state =
      if ltb state.in_flight cfg.max_concurrent
      then (running, record state { in_flight = state.in_flight + 1 })
      else (
        answered (
            error_response 429 (some 5) "concurrency_limited"
              "The service is busy. Please retry shortly."),
        state,
      )

  unfoldable pub answer_decoded :
      (TraceRequest → TracerReply) → Option (TraceRequest × Bool) → Response
  answer_decoded tracer none =
      error_response 400 none "invalid_request"
        "Request body must contain a valid domain and qtype."
  answer_decoded tracer (some (req, alone)) =
      if not alone
      then error_response 400 none "invalid_request"
          "Request body must contain a single JSON object."
      else write_reply (tracer req)

  -- Behind the semaphore, with its deferred release.
  unfoldable pub finish :
      (TraceRequest → TracerReply)
      → HttpRequest
      → ServerState libs.rate
      → Phase × ServerState libs.rate
  finish tracer req state = (
    answered (answer_decoded tracer (libs.decode cfg.body_limit req.body)),
    record state { in_flight = state.in_flight - 1 },
  )

  -- A request's next stretch of `createTrace`, at a time and with the tracer's replies.
  unfoldable pub advance :
      ℕ
      → (TraceRequest → TracerReply)
      → HttpRequest
      → Phase
      → ServerState libs.rate
      → Phase × ServerState libs.rate
  advance now tracer req (answered response) state = (answered response, state)
  advance now tracer req (limited index) state = ask now index state
  advance now tracer req allowed state = acquire state
  advance now tracer req running state = finish tracer req state

  -- `createTrace` for a request that runs alone: `limiterFor` and `Allow` at their times.
  unfoldable pub create_trace :
      ℕ
      → ℕ
      → (TraceRequest → TracerReply)
      → HttpRequest
      → ServerState libs.rate
      → Phase × ServerState libs.rate
  create_trace now later tracer req state =
      let arrived = arrive now req state in
      let asked = advance later tracer req arrived.0 arrived.1 in
      let admitted = advance later tracer req asked.0 asked.1 in
      advance later tracer req admitted.0 admitted.1
