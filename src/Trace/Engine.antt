-- ===== src/Trace/Engine.antt =====
-- `queryCandidates` and `traceName` of backend/internal/trace/engine.go.
pub mod Steps
pub mod Reaching
pub mod Results
pub mod Judging
pub mod Asking
pub mod Rounds
pub mod Outcomes
pub mod Returning
pub mod Budget
pub mod Egress
use text.Mathlib.Text.{◌==◌ as str_eq}
use dnswatcher.Prelude.{
  ℕ, zero, suc, ◌+◌, ◌*◌, ◌/◌, ℤ, pos, Bool, true, false, not, ◌&&◌, ◌||◌, List, [], ◌∷◌, ◌++◌, map,
  Option, none, some, ltb, leb, ◌==◌, if◌then◌else◌, ◌>>=◌, length, Bytes, String, codes, equal,
  contains,
}
use dnswatcher.Strings.{join}
use dnswatcher.Contracts.{Hop, RrSet, NextTarget, FinalOutcome}
use dnswatcher.Contracts.Kinds.{Role, HopPurpose, ResponseKind, Transport, OutcomeKind}
use dnswatcher.Trace.Dns.{Msg, NetError, Query, Env}
use dnswatcher.Trace.Records.{
  unique_strings, fqdn, ns_targets, glue_addrs, glue_of, referral_zone, rrsets_from_section,
  has_type, first_cname, is_nodata, classify_role, explain_rcode, is_success,
}
use dnswatcher.Trace.State.{
  ServerCandidate, Engine, TraceState, TraceError, QueryResult, Referral, Cursor, zero_hop,
  new_error_hop, last_hop_index, append_hop, outcome,
}
use dnswatcher.Strings.{trim_suffix}
use dnswatcher.Trace.Support.{
  Lookup, is_support, visited_key, resolve_name_server_addresses, is_success_kind,
}
use dnswatcher.Trace.Exchange.{Exchange, answered, failed, exchange}
use dnswatcher.Trace.Verdict.{Verdict, stop, go, verdict}
use dnswatcher.Trace.Response.{response_hop, judge_response}

-- `errors.Is(err, context.DeadlineExceeded)` chooses the error.
abbrev pub client_error : NetError → TraceError
client_error NetError.deadline_exceeded = TraceError.timeout
client_error err = TraceError.client err

abbrev pub is_timeout : NetError → Bool
is_timeout NetError.deadline_exceeded = true
is_timeout _ = false

abbrev pub client_error_hop : ℕ → Option ℕ → ServerCandidate → Cursor → NetError → Hop
client_error_hop index parent candidate at NetError.deadline_exceeded =
    new_error_hop index parent candidate at "TIMEOUT"
      "The queried server did not respond before the timeout."
      "The backend timed out waiting for the upstream server."
client_error_hop index parent candidate at (NetError.failed text) =
    new_error_hop index parent candidate at "ERROR"
      "The query failed before a usable DNS response was received." text

abbrev pub loop_hop : ℕ → Option ℕ → ServerCandidate → Cursor → Hop
loop_hop index parent candidate at =
    new_error_hop index parent candidate at "LOOP"
      "The trace repeated a previously queried server and stopped."
      "Loop detection blocked a repeated lookup path."

-- The variables `lastHop`, `timeoutCount` and `lastErr`.
pub record Attempts : Type 0 where
  pub last_hop : Hop
  pub timeout_count : ℕ
  pub last_err : Option TraceError

abbrev pub no_attempts : Attempts
no_attempts = record { last_hop = zero_hop; timeout_count = 0; last_err = none }

abbrev pub failed_with : Hop → TraceError → QueryResult
failed_with hop err = record {
  hop = hop;
  response = none;
  next_candidates = [];
  cname_target = [];
  err = some err;
}

-- Behind the loop over the candidates; `total` is their number.
unfoldable pub exhausted : ℕ → Attempts → QueryResult
exhausted total tried =
    if tried.timeout_count == total && ltb 0 total
    then failed_with tried.last_hop TraceError.timeout
    else failed_with tried.last_hop
        (elim tried.last_err [ none ↦ TraceError.unusable_referral | some err ↦ err ])

abbrev pub after_failure : Hop → NetError → Attempts → Attempts
after_failure hop err tried = record {
  last_hop = hop;
  timeout_count = if is_timeout err then tried.timeout_count + 1 else tried.timeout_count;
  last_err = some (client_error err);
}

-- The state behind `state.visited[visitedKey] = …`, `state.upstreamQueries++` and the exchange.
abbrev pub charge : Bytes → List Query → TraceState → TraceState
charge key history state = record state {
  visited = key ∷ state.visited;
  upstream_queries = state.upstream_queries + 1;
  history = history;
}

module _ (env : Env) (e : Engine) (lookup : Lookup) (parent : Option ℕ) where
  -- The loop body behind the exchange, with what a failed one goes on with.
  unfoldable pub on_exchange :
      TraceState
      → Cursor
      → ℕ
      → ServerCandidate
      → (NetError → Option (QueryResult × TraceState))
      → Exchange
      → Option (QueryResult × TraceState)
  on_exchange state at index candidate retry (answered response latency transport truncated) =
      judge_response env e lookup state at
        (response_hop env index parent candidate at response latency transport truncated) response
  on_exchange state at index candidate retry (failed err) = retry err

  -- The loop of `queryCandidates` over the candidates left.
  unfoldable pub query_rest :
      ℕ → Cursor → List ServerCandidate → Attempts → TraceState → Option (QueryResult × TraceState)
  query_rest total at [] tried state = some (exhausted total tried, state)
  query_rest total at (candidate ∷ rest) tried state =
      let key = visited_key candidate.ip at in
      let index = length state.hops in
      let skipped =
        query_rest total at rest (record tried { last_err = some TraceError.unusable_referral })
          state in
      let sent = exchange env e state.history candidate.endpoint at.qname at.qtype in
      let state' = charge key sent.1 state in
      let asked =
        on_exchange state' at index candidate
          (λ err.
            query_rest total at rest
              (after_failure (client_error_hop index parent candidate at err) err tried) state')
          sent.0 in
      if leb e.max_upstream_queries state.upstream_queries
      then some (failed_with tried.last_hop TraceError.max_depth, state)
      else if not (e.allow candidate.ip)
      then skipped
      else if contains key state.visited
      then some (failed_with (loop_hop index parent candidate at) TraceError.loop_detected, state)
      else asked

  unfoldable pub query_candidates : Cursor → TraceState → Option (QueryResult × TraceState)
  query_candidates at state = query_rest (length at.candidates) at at.candidates no_attempts state

-- The loop returns, or goes round from the state that has the hop.
unfoldable pub on_verdict :
    (Cursor → TraceState → Option (FinalOutcome × TraceState))
    → TraceState
    → Verdict
    → Option (FinalOutcome × TraceState)
on_verdict again state (stop result) = some (result, state)
on_verdict again state (go at) = again at state

module _ (env : Env) (e : Engine) where
  -- The loop of `traceName`, for the rounds left. `purpose` is its argument, not its variable.
  unfoldable pub trace_loop :
      Lookup → Option ℕ → HopPurpose → ℕ → Cursor → TraceState → Option (FinalOutcome × TraceState)
  trace_loop lookup parent purpose zero at state = some (
    outcome OutcomeKind.max_depth "MAX_DEPTH" "The trace exceeded its maximum hop depth."
        (last_hop_index state.hops),
    state,
  )
  trace_loop lookup parent purpose (suc rounds) at state =
      let round : Option (FinalOutcome × TraceState) =
        query_candidates env e lookup parent at state >>= λ (q, state').
        on_verdict (trace_loop lookup parent purpose rounds) (append_hop q.hop state')
          (verdict env e purpose q at) in
      if leb e.max_upstream_queries state.upstream_queries
      then some (
        outcome OutcomeKind.max_depth "BUDGET" "The trace exceeded its upstream query budget."
            (last_hop_index state.hops),
        state,
      )
      else round

  -- The arguments of the recursive call in `resolveNameServerAddresses`.
  abbrev pub support_cursor : Bytes → Bytes → Cursor
  support_cursor ns qtype = record {
    candidates = e.roots;
    qname = fqdn (trim_suffix ns (codes "."));
    qtype = qtype;
    purpose = HopPurpose.nameserver_address_lookup;
    zone = codes ".";
  }

  -- `traceName`, with fuel for the depth of its calls of itself.
  unfoldable pub trace_name :
      ℕ → Option ℕ → Cursor → TraceState → Option (FinalOutcome × TraceState)
  trace_name zero parent at state = none
  trace_name (suc fuel) parent at state =
      trace_loop
        (λ state' ns qtype index. trace_name fuel (some index) (support_cursor ns qtype) state')
        parent at.purpose e.max_depth at state

  -- The recursive call of `resolveNameServerAddresses`.
  unfoldable pub support_lookup : ℕ → Lookup
  support_lookup fuel state ns qtype index =
      trace_name fuel (some index) (support_cursor ns qtype) state
