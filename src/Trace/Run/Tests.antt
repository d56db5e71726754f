-- ===== src/Trace/Run/Tests.antt =====
-- Runs of the engine against a small lab: a root that refers to the name server of "test.", with
-- glue or without, and that server, which answers.
use dnswatcher.Prelude.{
  ℕ, ◌+◌, ◌≡◌, ◌≤◌, ◌<◌, ◌⊎◌, arith, refl, ℤ, pos, Bool, true, false, not, List, [], ◌∷◌, ◌++◌, map,
  Option, none, some, ◌==◌, if◌then◌else◌, length, Bytes, String, codes, equal, contains, All,
  Returns,
}
use dnswatcher.Strings.{
  Unicode, trim_suffix, ends_with, to_lower, to_upper, is_ascii, trim_space, trim_right, trim_left,
  is_space, lower_byte, upper_byte, valid_string, split, join, equal_fold,
}
use dnswatcher.Contracts.{TraceRequest}
use dnswatcher.Contracts.Kinds.{OutcomeKind, ResponseKind}
use dnswatcher.Policy.Domain.{
  special_use_domain, normalize_domain, normalize_qtype, label_ok, is_label_byte, is_blocked,
  is_reverse_zone,
}
use dnswatcher.Trace.Dns.{Header, Rr, Dns, Query, Reply, response, Env}
use dnswatcher.Trace.Records.{
  header, record_string, add_to_group, group_key, group_records, fresh_rrset, rrsets_from_section,
  unique_from, unique_strings, fqdn, count_labels, ns_names, ns_targets, add_glue, glue_from,
  glue_addrs, glue_of, referral_zone, matches_type, has_type, first_cname, is_nodata,
  role_by_response, classify_role, explain_rcode,
}
use dnswatcher.Trace.State.{Engine, TraceState, Cursor, zero_hop, new_error_hop, last_hop_index}
use dnswatcher.Trace.Exchange.{question, from_tcp, from_udp, exchange}
use dnswatcher.Trace.Support.{
  visited_key, purpose_word, addresses_of_type, support_addresses, found_addresses, resolve_types,
  resolve_name_server_addresses,
}
use dnswatcher.Trace.Referral.{
  allowed_pairs, glue_pairs, support_pairs, next_candidates_for_referral,
}
use dnswatcher.Trace.Response.{response_hop, judge_referral, judge_response}
use dnswatcher.Trace.Verdict.{head_zone, on_kind, on_code, judge, verdict}
use dnswatcher.Trace.Engine.{
  support_lookup, exhausted, on_exchange, query_rest, query_candidates, on_verdict, trace_loop,
  trace_name,
}
use dnswatcher.Trace.Engine.Results.{IsUnasked, IsOfRound}
use dnswatcher.Trace.Engine.Budget.{IsBudgeted}
use dnswatcher.Trace.Engine.Egress.{IsAllowed}
use dnswatcher.Trace.Run.Promises.{
  Accounts, traced-IsBudgeted, traced-IsAllowed, trace-Accounts, query_candidates-index,
}
use dnswatcher.Trace.Run.{
  Readings, Traced, done, refused, initial_state, assemble, summary_detail, answer_count,
  cname_count, truth_notes, traced, run_trace, with_qtype, with_domain, trace, start_cursor,
}

-- What a run of the engine computes with.
unfoldable pub engine : Unit {0}
unfolding normalize_domain normalize_qtype contains equal trim_suffix ends_with to_lower to_upper
    is_ascii trim_space trim_right trim_left is_space lower_byte upper_byte valid_string split
    label_ok is_label_byte is_blocked is_reverse_zone join equal_fold header record_string
    add_to_group group_key group_records fresh_rrset rrsets_from_section unique_from unique_strings
    fqdn count_labels ns_names ns_targets add_glue glue_from glue_addrs glue_of referral_zone
    matches_type has_type first_cname is_nodata role_by_response classify_role explain_rcode
    zero_hop new_error_hop last_hop_index question from_tcp from_udp exchange visited_key
    purpose_word addresses_of_type support_addresses found_addresses resolve_types
    resolve_name_server_addresses allowed_pairs glue_pairs support_pairs
    next_candidates_for_referral response_hop judge_referral judge_response head_zone on_kind
    on_code judge verdict exhausted on_exchange query_rest query_candidates on_verdict trace_loop
    trace_name initial_state assemble summary_detail answer_count cname_count truth_notes traced
    run_trace with_qtype with_domain trace
engine = tt

abbrev pub no_tables : Unicode
no_tables = record {
  lower = λ s. s;
  upper = λ s. s;
  trim = λ s. s;
  valid = λ _. false;
  fold = equal;
}

abbrev pub dns : Dns
dns = record {
  type_to_string = λ t. if t == 1 then codes "A" else if t == 2 then codes "NS" else codes "CNAME";
  string_to_type = λ s. if equal s (codes "A") then 1 else if equal s (codes "NS") then 2 else 28;
  rcode_to_string = λ c. if c == 0 then "NOERROR" else if c == 3 then "NXDOMAIN" else "SERVFAIL";
  type_soa = 6;
  rcode_success = 0;
  rcode_name_error = 3;
  rcode_server_failure = 2;
  rcode_refused = 5;
  rcode_not_implemented = 4;
}

abbrev msg : List Rr → List Rr → List Rr → Reply
msg answer authority extra =
    response
      (record {
        rcode = 0;
        authoritative = true;
        truncated = false;
        answer = answer;
        ns = authority;
        extra = extra;
      })
      3_000_000

abbrev pub of_type : ℕ → String → Header
of_type t name = record { name = codes name; rrtype = t; ttl = 60 }

abbrev pub referral : List Rr → Reply
referral extra = msg [] (Rr.ns (of_type 2 "com.") (codes "ns.net.") ∷ []) extra

abbrev pub glue : List Rr
glue = Rr.a (of_type 1 "ns.net.") (codes "9.9.9.9") ∷ []

abbrev pub address : String → Reply
address name = msg (Rr.a (of_type 1 name) (codes "9.9.9.9") ∷ []) [] []

-- The root knows the address of "ns.net." itself, and refers any other question to that server.
abbrev lab : List Rr → List Query → Query → Reply
lab extra history query =
    if equal query.endpoint (codes "1.1.1.1:53")
    then if equal query.qname (codes "ns.net.") then address "ns.net." else referral extra
    else address "www.com."

abbrev pub lab_env : List Rr → Env
lab_env extra = record { unicode = no_tables; dns = dns; network = lab extra }

abbrev pub lab_engine : Engine
lab_engine = record {
  per_hop_timeout = 2500;
  overall_timeout = 12000;
  max_depth = 4;
  max_upstream_queries = 6;
  roots =
      record {
        name = codes "root.";
        ip = codes "1.1.1.1";
        endpoint = codes "1.1.1.1:53";
        zone = codes ".";
      }
      ∷ [];
  allow = λ ip. not (equal ip (codes "10.0.0.1"));
  endpoint_resolver = λ ip. ip ++ codes ":53";
}

abbrev pub no_literals : Bytes → Bool
no_literals _ = false

abbrev pub readings : Readings
readings = record {
  random = codes "ab";
  started_at = codes "t0";
  completed_at = codes "t1";
  total_duration_ms = 7;
}

abbrev pub ask_for : String → TraceRequest
ask_for domain = record { domain = codes domain; qtype = codes "a" }

-- The indices of the hops, their kinds and the outcome.
abbrev pub digest_result : Traced → Option (List (ℕ × ResponseKind) × OutcomeKind × ℤ)
digest_result (done r) = some (
  map (λ h. (h.index, h.response_kind)) r.hops,
  r.final_outcome.kind,
  r.final_outcome.terminal_hop_index,
)
digest_result (refused _) = none

abbrev pub digest : Option Traced → Option (List (ℕ × ResponseKind) × OutcomeKind × ℤ)
digest none = none
digest (some r) = digest_result r

with_glue :
    digest (trace (lab_env glue) lab_engine no_literals readings (ask_for "WWW.com"))
    ≡ some ((0, ResponseKind.referral) ∷ (1, ResponseKind.answer) ∷ [], OutcomeKind.success, pos 1)
unfolding engine
with_glue = refl

-- Without glue the hop of the support lookup comes first, and shares the index 0 with its parent.
without_glue :
    digest (trace (lab_env []) lab_engine no_literals readings (ask_for "www.com"))
    ≡ some (
      (0, ResponseKind.answer) ∷ (0, ResponseKind.referral) ∷ (2, ResponseKind.answer) ∷ [],
      OutcomeKind.success,
      pos 2,
    )
unfolding engine
without_glue = refl

refused_input :
    trace (lab_env glue) lab_engine no_literals readings (ask_for "a.local")
    ≡ some (refused special_use_domain)
unfolding engine
refused_input = refl

traced-IsBudgeted_example :
    Returns
      (λ r. IsBudgeted lab_engine r.1)
      (traced
        (lab_env [])
        lab_engine
        no_literals
        readings
        (codes "www.com")
        (codes "www.com")
        (codes "A"))
traced-IsBudgeted_example =
    traced-IsBudgeted (lab_env []) lab_engine no_literals readings (codes "www.com")
      (codes "www.com") (codes "A")

traced-IsAllowed_example :
    Returns
      (λ r. All (IsAllowed lab_engine) r.1.history)
      (traced
        (lab_env [])
        lab_engine
        no_literals
        readings
        (codes "www.com")
        (codes "www.com")
        (codes "A"))
traced-IsAllowed_example =
    traced-IsAllowed (lab_env []) lab_engine no_literals readings (codes "www.com")
      (codes "www.com") (codes "A")

trace-Accounts_example :
    Returns
      (Accounts (lab_env []) lab_engine no_literals (ask_for "www.com"))
      (trace (lab_env []) lab_engine no_literals readings (ask_for "www.com"))
trace-Accounts_example =
    trace-Accounts (lab_env []) lab_engine no_literals readings (ask_for "www.com")

abbrev first_round : Cursor
first_round =
    start_cursor (lab_env []) lab_engine no_literals readings (codes "www.com") (codes "A")

abbrev at_start : TraceState
at_start = initial_state readings (codes "www.com") (codes "www.com") (codes "A")

started : lab_engine.max_upstream_queries < at_start.upstream_queries + 7
unfolding initial_state
started = omega arith

query_candidates-index_example :
    Returns
      (λ r.
        (length at_start.hops ≤ length r.1.hops)
        × (((r.0.hop ≡ zero_hop) × IsUnasked lab_engine at_start first_round r.1)
            ⊎ IsOfRound lab_engine none at_start first_round r.0.hop))
      (query_candidates
        (lab_env [])
        lab_engine
        (support_lookup (lab_env []) lab_engine 6)
        none
        first_round
        at_start)
query_candidates-index_example =
    query_candidates-index (lab_env []) lab_engine 6 none first_round at_start started
