-- ===== src/Trace/Run.antt =====
-- `NewEngine` and `Trace` of backend/internal/trace/engine.go, and root_hints.go.
pub mod Promises
pub mod Egress
pub mod Answers
pub mod Examples
pub mod Tests
use dnswatcher.Prelude.{
  ℕ, suc, ◌+◌, ◌*◌, Bool, true, false, List, [], ◌∷◌, ◌++◌, map, Option, none, some, is_nil, ◌==◌,
  if◌then◌else◌, ◌>>=◌, length, Bytes, String, codes, equal,
}
use dnswatcher.Contracts.{TraceRequest, TraceResult, Hop, TruthNote, FinalOutcome}
use dnswatcher.Contracts.Kinds.{HopPurpose, ResponseKind, OutcomeKind, Status}
use dnswatcher.Policy.Domain.{Result, ok, err, PolicyError, normalize_domain, normalize_qtype}
use dnswatcher.Policy.Destination.{allow_public}
use dnswatcher.Net.{Texts}
use dnswatcher.Net.HostPort.{join_host_port}
use dnswatcher.Trace.Dns.{Env}
use dnswatcher.Trace.Records.{fqdn}
use dnswatcher.Trace.State.{ServerCandidate, Engine, TraceState, Cursor}
use dnswatcher.Trace.Support.{is_success_kind}
use dnswatcher.Trace.Engine.{trace_name}
use dnswatcher.Strings.Hex.{hex}

-- Durations are in nanoseconds. `none` is a nil interface or function.
pub record Config : Type 0 where
  pub per_hop_timeout : ℕ
  pub overall_timeout : ℕ
  pub max_depth : ℕ
  pub max_upstream_queries : ℕ
  pub roots : List ServerCandidate
  pub destination_policy : Option (Bytes → Bool)
  pub endpoint_resolver : Option (Bytes → Bytes)

-- `NewServerCandidate`
unfoldable pub new_server_candidate : Bytes → Bytes → Bytes → Bytes → ServerCandidate
new_server_candidate name ip zone endpoint = record {
  name = name;
  ip = ip;
  endpoint = if is_nil endpoint then join_host_port ip (codes "53") else endpoint;
  zone = zone;
}

abbrev root_server : String → String → ServerCandidate
root_server name ip = record {
  name = codes name;
  ip = codes ip;
  endpoint = codes ip ++ codes ":53";
  zone = codes ".";
}

unfoldable pub default_root_candidates : List ServerCandidate
default_root_candidates =
    root_server "a.root-servers.net." "198.41.0.4"
    ∷ root_server "b.root-servers.net." "170.247.170.2"
    ∷ root_server "c.root-servers.net." "192.33.4.12"
    ∷ root_server "d.root-servers.net." "199.7.91.13"
    ∷ root_server "e.root-servers.net." "192.203.230.10"
    ∷ root_server "f.root-servers.net." "192.5.5.241"
    ∷ root_server "g.root-servers.net." "192.112.36.4"
    ∷ root_server "h.root-servers.net." "198.97.190.53"
    ∷ root_server "i.root-servers.net." "192.36.148.17"
    ∷ root_server "j.root-servers.net." "192.58.128.30"
    ∷ root_server "k.root-servers.net." "193.0.14.129"
    ∷ root_server "l.root-servers.net." "199.7.83.42"
    ∷ root_server "m.root-servers.net." "202.12.27.33"
    ∷ []

abbrev pub default_to : ℕ → ℕ → ℕ
default_to value fallback = if value == 0 then fallback else value

abbrev pub or_default {ℓ} : {A : Type ℓ} → Option A → A → A
or_default none fallback = fallback
or_default (some a) fallback = a

-- The loop over the roots that fills in the endpoints.
unfoldable pub with_endpoint : (Bytes → Bytes) → ServerCandidate → ServerCandidate
with_endpoint resolve root =
    if is_nil root.endpoint then record root { endpoint = resolve root.ip } else root

-- `texts` is for the addresses that `policy.PublicIPPolicy` reads.
unfoldable pub new_engine : Texts → Config → Engine
new_engine texts cfg =
    let resolver = or_default cfg.endpoint_resolver (λ ip. join_host_port ip (codes "53")) in
    record {
      per_hop_timeout = default_to cfg.per_hop_timeout 2_500_000_000;
      overall_timeout = default_to cfg.overall_timeout 12_000_000_000;
      max_depth = default_to cfg.max_depth 20;
      max_upstream_queries = default_to cfg.max_upstream_queries 40;
      roots =
          map (with_endpoint resolver)
            (if is_nil cfg.roots then default_root_candidates else cfg.roots);
      allow = or_default cfg.destination_policy (allow_public texts);
      endpoint_resolver = resolver;
    }

unfoldable pub summary_detail : OutcomeKind → Bytes → Bytes → Bytes
summary_detail OutcomeKind.success domain qtype =
    codes "The trace completed for " ++ (domain ++ (codes " " ++ (qtype ++ codes ".")))
summary_detail OutcomeKind.nxdomain _ _ =
    codes "The trace reached an authoritative NXDOMAIN response."
summary_detail OutcomeKind.timeout _ _ =
    codes "The backend did not receive a timely upstream response."
summary_detail OutcomeKind.unusable_referral _ _ =
    codes "The trace received a referral but could not continue safely."
summary_detail _ _ _ = codes "The trace ended with a terminal failure."

abbrev pub is_cname : ResponseKind → Bool
is_cname ResponseKind.cname = true
is_cname _ = false

-- The loop that counts, over the hops.
unfoldable pub answer_count : List Hop → ℕ
answer_count [] = 0
answer_count (hop ∷ hops) = length hop.answer_rrsets + answer_count hops

unfoldable pub cname_count : List Hop → ℕ
cname_count [] = 0
cname_count (hop ∷ hops) = (if is_cname hop.response_kind then 1 else 0) + cname_count hops

unfoldable pub truth_notes : List TruthNote
truth_notes =
    record {
      code = "backend_trace_service";
      message = "Traces are performed by the backend trace service.";
    }
    ∷ record {
      code = "not_user_resolver_path";
      message = "Timings reflect the backend service path, not your device's resolver path.";
    }
    ∷ record {
      code = "live_results_vary";
      message = "Repeated traces may differ because live DNS data and network conditions change.";
    }
    ∷ record {
      code = "qname_minimization_deferred";
      message =
          "V1 sends the full query name during iterative tracing; QNAME minimization is deferred.";
    }
    ∷ []

-- What `Trace` reads from the clock and from the random source: the trace's id, the times at
-- which it starts and ends, and the milliseconds between.
pub record Readings : Type 0 where
  pub random : Bytes
  pub started_at : Bytes
  pub completed_at : Bytes
  pub total_duration_ms : ℕ

-- The result, or the error of the input policy.
pub data Traced : Type 0 where
  done : TraceResult → Traced
  refused : PolicyError → Traced

-- `newTraceID`, with the bytes of `rand.Read`.
unfoldable pub new_trace_id : Bytes → Bytes
new_trace_id buf = hex buf

unfoldable pub initial_state : Readings → Bytes → Bytes → Bytes → TraceState
initial_state now input domain qtype = record {
  trace_id = new_trace_id now.random;
  input_domain = input;
  normalized_domain = domain;
  qtype = qtype;
  started_at = now.started_at;
  hops = [];
  visited = [];
  upstream_queries = 0;
  history = [];
}

-- `Trace` behind the call of `traceName`.
unfoldable pub assemble : Readings → FinalOutcome → TraceState → TraceResult
assemble now outcome state = record {
  trace_id = state.trace_id;
  input_domain = state.input_domain;
  normalized_domain = state.normalized_domain;
  qtype = state.qtype;
  started_at = state.started_at;
  completed_at = now.completed_at;
  total_duration_ms = now.total_duration_ms;
  status = if is_success_kind outcome.kind then Status.success else Status.failure;
  final_outcome = outcome;
  hops = state.hops;
  summary = record {
    headline = outcome.message;
    detail = summary_detail outcome.kind state.normalized_domain state.qtype;
    total_hops = length state.hops;
    answer_count = answer_count state.hops;
    cname_count = cname_count state.hops;
  };
  truth_notes = truth_notes;
}

module _ (env : Env) (e : Engine) (is_ip_literal : Bytes → Bool) (now : Readings) where
  abbrev pub start_cursor : Bytes → Bytes → Cursor
  start_cursor domain qtype = record {
    candidates = e.roots;
    qname = fqdn domain;
    qtype = qtype;
    purpose = HopPurpose.delegation;
    zone = codes ".";
  }

  -- The call of `traceName`. Each of its own calls of itself stands behind a query, so a fuel of
  -- one more than the budget of queries is enough.
  unfoldable pub traced : Bytes → Bytes → Bytes → Option (FinalOutcome × TraceState)
  traced input domain qtype =
      trace_name env e (suc e.max_upstream_queries) none (start_cursor domain qtype)
        (initial_state now input domain qtype)

  unfoldable pub run_trace : Bytes → Bytes → Bytes → Option Traced
  run_trace input domain qtype =
      traced input domain qtype >>= λ (outcome, state). some (done (assemble now outcome state))

  -- `Trace` behind `NormalizeQType`, and behind `NormalizeDomain`.
  unfoldable pub with_qtype : TraceRequest → Bytes → Result → Option Traced
  with_qtype req domain (ok qtype) = run_trace req.domain domain qtype
  with_qtype req domain (err error) = some (refused error)

  unfoldable pub with_domain : TraceRequest → Result → Option Traced
  with_domain req (ok domain) = with_qtype req domain (normalize_qtype env.unicode req.qtype)
  with_domain req (err error) = some (refused error)

  unfoldable pub trace : TraceRequest → Option Traced
  trace req = with_domain req (normalize_domain env.unicode is_ip_literal req.domain)
