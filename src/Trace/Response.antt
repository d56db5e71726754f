-- ===== src/Trace/Response.antt =====
-- The loop body of `queryCandidates` in backend/internal/trace/engine.go behind a successful
-- exchange: the hop, and the judgement of the response.
use dnswatcher.Prelude.{
  ℕ, ◌/◌, Bool, not, ◌&&◌, List, [], Option, none, some, if◌then◌else◌, ◌>>=◌, is_nil, Bytes,
  String, equal,
}
use dnswatcher.Contracts.{Hop}
use dnswatcher.Contracts.Kinds.{ResponseKind, Transport}
use dnswatcher.Trace.Dns.{Msg, Env}
use dnswatcher.Trace.Records.{
  rrsets_from_section, has_type, first_cname, is_nodata, classify_role, explain_rcode, is_success,
}
use dnswatcher.Trace.State.{
  ServerCandidate, Engine, TraceState, TraceError, QueryResult, Referral, Cursor,
}
use dnswatcher.Trace.Support.{Lookup}
use dnswatcher.Trace.Referral.{next_candidates_for_referral}

abbrev pub judged : Hop → ResponseKind → String → String → Hop
judged hop kind explanation note = record hop {
  response_kind = kind;
  explanation = explanation;
  technical_note = note;
}

abbrev pub result_of : Hop → Msg → List ServerCandidate → Bytes → Option TraceError → QueryResult
result_of hop response next target err = record {
  hop = hop;
  response = some response;
  next_candidates = next;
  cname_target = target;
  err = err;
}

-- The last part of the loop body: what the referral gave.
unfoldable pub judge_referral : Hop → Msg → Referral → QueryResult
judge_referral hop response referral =
    if is_nil referral.candidates
    then result_of
        (judged hop ResponseKind.error "The response did not contain a usable answer or referral."
          "The trace could not derive a safe next target from the response.")
        response [] [] (some TraceError.unusable_referral)
    else result_of
        (record (judged hop ResponseKind.referral
          "The server referred the trace to the next set of nameservers." referral.note) {
            next_targets = referral.next_targets;
          })
        response referral.candidates [] none

module _ (env : Env) where
  -- The hop literal of `queryCandidates`, before the response is judged.
  unfoldable pub response_hop :
      ℕ → Option ℕ → ServerCandidate → Cursor → Msg → ℕ → Transport → Bool → Hop
  response_hop index parent candidate at response latency transport truncated = record {
    index = index;
    parent_index = parent;
    role = classify_role env candidate.zone at.purpose response at.qname at.qtype;
    hop_purpose = at.purpose;
    zone_context = at.zone;
    server_name = candidate.name;
    server_ip = candidate.ip;
    qname = at.qname;
    qtype = at.qtype;
    transport = transport;
    latency_ms = latency / 1_000_000;
    response_code = env.dns.rcode_to_string response.rcode;
    authoritative = response.authoritative;
    truncated = truncated;
    response_kind = ResponseKind.unset;
    answer_rrsets = rrsets_from_section env "answer" response.answer;
    authority_rrsets = rrsets_from_section env "authority" response.ns;
    additional_rrsets = rrsets_from_section env "additional" response.extra;
    next_targets = [];
    explanation = "";
    technical_note = "";
  }

module _ (env : Env) (e : Engine) where
  -- The loop body behind a successful exchange. Every way through it returns.
  unfoldable pub judge_response :
      Lookup → TraceState → Cursor → Hop → Msg → Option (QueryResult × TraceState)
  judge_response lookup state at hop response =
      let target = first_cname env response.answer at.qname in
      let answers = has_type env response.answer at.qname at.qtype in
      let referred : Option (QueryResult × TraceState) =
        next_candidates_for_referral e lookup state response hop.index >>= λ (referral, state').
        some (judge_referral hop response referral, state') in
      if not (is_success env response)
      then some (
        result_of
            (judged hop ResponseKind.error (explain_rcode env response.rcode)
              "Non-success response code ended the trace.")
            response [] [] (some (TraceError.rcode_error hop.response_code)),
        state,
      )
      else if not (equal target []) && not answers
      then some (
        result_of
            (judged hop ResponseKind.cname
              "The server returned a CNAME target, so the trace must continue for the alias."
              "The backend restarts iterative tracing from the root for the CNAME target.")
            response [] target none,
        state,
      )
      else if answers
      then some (
        result_of
            (judged hop ResponseKind.answer "The server returned the requested records."
              "The answer section contains records that match the requested name and type.")
            response [] [] none,
        state,
      )
      else if is_nodata env response
      then some (
        result_of
            (judged hop ResponseKind.nodata
              "The server answered successfully, but no records of the requested type were present."
              "NOERROR with an authoritative negative answer and no matching data is treated as NODATA.")
            response [] [] none,
        state,
      )
      else referred
