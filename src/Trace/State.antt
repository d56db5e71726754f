-- ===== src/Trace/State.antt =====
-- The engine's configuration and the state of one trace, backend/internal/trace/engine.go.
use dnswatcher.Prelude.{ℕ, ℤ, pos, negsuc, Bool, List, [], ◌∷◌, ◌++◌, Option, none, Bytes, String}
use dnswatcher.Contracts.{Hop, FinalOutcome, NextTarget}
use dnswatcher.Contracts.Kinds.{Role, HopPurpose, ResponseKind, Transport, OutcomeKind}
use dnswatcher.Trace.Dns.{Msg, NetError, Query}

pub record ServerCandidate : Type 0 where
  pub name : Bytes
  pub ip : Bytes
  pub endpoint : Bytes
  pub zone : Bytes

-- `Config` with its defaults filled in, as `Engine` holds it. `allow` is the destination policy:
-- true where the source's `Allow` returns no error. The limits are not negative.
pub record Engine : Type 0 where
  pub per_hop_timeout : ℕ
  pub overall_timeout : ℕ
  pub max_depth : ℕ
  pub max_upstream_queries : ℕ
  pub roots : List ServerCandidate
  pub allow : Bytes → Bool
  pub endpoint_resolver : Bytes → Bytes

-- `traceState`, with the queries sent so far, the latest first.
pub record TraceState : Type 0 where
  pub trace_id : Bytes
  pub input_domain : Bytes
  pub normalized_domain : Bytes
  pub qtype : Bytes
  pub started_at : Bytes
  pub hops : List Hop
  pub visited : List Bytes
  pub upstream_queries : ℕ
  pub history : List Query

-- The package's error values, an error of the DNS client, and the error of a response code.
pub data TraceError : Type 0 where
  timeout loop_detected max_depth unusable_referral : TraceError
  client : NetError → TraceError
  rcode_error : String → TraceError

-- The five results of `queryCandidates`.
pub record QueryResult : Type 0 where
  pub hop : Hop
  pub response : Option Msg
  pub next_candidates : List ServerCandidate
  pub cname_target : Bytes
  pub err : Option TraceError

-- The first three results of `nextCandidatesForReferral`, where it returns no error.
pub record Referral : Type 0 where
  pub candidates : List ServerCandidate
  pub next_targets : List NextTarget
  pub note : String

-- The loop variables of `traceName`.
pub record Cursor : Type 0 where
  pub candidates : List ServerCandidate
  pub qname : Bytes
  pub qtype : Bytes
  pub purpose : HopPurpose
  pub zone : Bytes

unfoldable pub zero_hop : Hop
zero_hop = record {
  index = 0;
  parent_index = none;
  role = Role.unset;
  hop_purpose = HopPurpose.unset;
  zone_context = [];
  server_name = [];
  server_ip = [];
  qname = [];
  qtype = [];
  transport = Transport.unset;
  latency_ms = 0;
  response_code = "";
  authoritative = Bool.false;
  truncated = Bool.false;
  response_kind = ResponseKind.unset;
  answer_rrsets = [];
  authority_rrsets = [];
  additional_rrsets = [];
  next_targets = [];
  explanation = "";
  technical_note = "";
}

-- Every caller passes "error" for the response kind.
unfoldable pub new_error_hop :
    ℕ → Option ℕ → ServerCandidate → Cursor → String → String → String → Hop
new_error_hop index parent candidate at rcode explanation technical_note = record {
  index = index;
  parent_index = parent;
  role = Role.error;
  hop_purpose = at.purpose;
  zone_context = at.zone;
  server_name = candidate.name;
  server_ip = candidate.ip;
  qname = at.qname;
  qtype = at.qtype;
  transport = Transport.udp;
  latency_ms = 0;
  response_code = rcode;
  authoritative = Bool.false;
  truncated = Bool.false;
  response_kind = ResponseKind.error;
  answer_rrsets = [];
  authority_rrsets = [];
  additional_rrsets = [];
  next_targets = [];
  explanation = explanation;
  technical_note = technical_note;
}

-- `lastHopIndex`: the index of the last hop, or -1.
unfoldable pub last_hop_index : List Hop → ℤ
last_hop_index [] = negsuc 0
last_hop_index (hop ∷ []) = pos hop.index
last_hop_index (hop ∷ hop' ∷ hops) = last_hop_index (hop' ∷ hops)

abbrev pub append_hop : Hop → TraceState → TraceState
append_hop hop state = record state { hops = state.hops ++ hop ∷ [] }

abbrev pub outcome : OutcomeKind → String → String → ℤ → FinalOutcome
outcome kind rcode message index = record {
  kind = kind;
  rcode = rcode;
  message = message;
  terminal_hop_index = index;
}
