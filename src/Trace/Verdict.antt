-- ===== src/Trace/Verdict.antt =====
-- The switch of `traceName` in backend/internal/trace/engine.go: how a round ends.
use text.Mathlib.Text.{◌==◌ as str_eq}
use dnswatcher.Prelude.{
  pos, List, [], ◌∷◌, Option, none, some, is_nil, if◌then◌else◌, Bytes, String, codes,
}
use dnswatcher.Contracts.{Hop, FinalOutcome}
use dnswatcher.Contracts.Kinds.{HopPurpose, ResponseKind, OutcomeKind}
use dnswatcher.Trace.Dns.{Msg, Env}
use dnswatcher.Trace.State.{ServerCandidate, Engine, TraceError, QueryResult, Cursor, outcome}
use dnswatcher.Trace.Support.{is_support}

-- The trace returns, or goes round with new loop variables.
pub data Verdict : Type 0 where
  stop : FinalOutcome → Verdict
  go : Cursor → Verdict

-- An outcome at the hop.
abbrev pub at_hop : OutcomeKind → String → String → Hop → Verdict
at_hop kind code message hop = stop (outcome kind code message (pos hop.index))

abbrev pub unusable_at : Hop → Verdict
unusable_at hop =
    at_hop OutcomeKind.unusable_referral hop.response_code
      "A referral was received, but no safe usable next target remained." hop

-- `nextCandidates[0].zone`; it is read behind a test that there is one.
unfoldable pub head_zone : List ServerCandidate → Bytes
head_zone [] = []
head_zone (candidate ∷ _) = candidate.zone

module _ (e : Engine) (purpose : HopPurpose) where
  -- The switch on `hop.ResponseKind`.
  unfoldable pub on_kind : ResponseKind → QueryResult → Cursor → Verdict
  on_kind ResponseKind.answer q at =
      at_hop OutcomeKind.success q.hop.response_code "Authoritative answer returned." q.hop
  on_kind ResponseKind.nodata q at =
      at_hop OutcomeKind.success q.hop.response_code
        "The authoritative server returned no records of the requested type." q.hop
  on_kind ResponseKind.cname q at = go (record {
    candidates = e.roots;
    qname = q.cname_target;
    qtype = at.qtype;
    purpose = HopPurpose.cname_follow;
    zone = codes ".";
  })
  on_kind ResponseKind.referral q at =
      if is_nil q.next_candidates
      then unusable_at q.hop
      else go (record {
        candidates = q.next_candidates;
        qname = at.qname;
        qtype = at.qtype;
        purpose =
            if is_support purpose
            then HopPurpose.nameserver_address_lookup
            else HopPurpose.delegation;
        zone = head_zone q.next_candidates;
      })
  on_kind _ q at = at_hop OutcomeKind.success q.hop.response_code q.hop.explanation q.hop

module _ (env : Env) where
  -- The switch on `hop.ResponseCode`.
  unfoldable pub on_code : Hop → Verdict
  on_code hop =
      let code = hop.response_code in
      if str_eq code (env.dns.rcode_to_string env.dns.rcode_name_error)
      then at_hop OutcomeKind.nxdomain code
          "The authoritative server reported that the queried name does not exist." hop
      else if str_eq code (env.dns.rcode_to_string env.dns.rcode_server_failure)
      then at_hop OutcomeKind.servfail code "The upstream server reported a server failure." hop
      else if str_eq code (env.dns.rcode_to_string env.dns.rcode_refused)
      then at_hop OutcomeKind.refused code "The upstream server refused the query." hop
      else if str_eq code (env.dns.rcode_to_string env.dns.rcode_not_implemented)
      then at_hop OutcomeKind.not_implemented code
          "The upstream server does not implement the requested operation." hop
      else at_hop OutcomeKind.servfail code hop.explanation hop

module _ (env : Env) (e : Engine) (purpose : HopPurpose) where
  -- The outer switch, on the error and the response.
  unfoldable pub judge : Option TraceError → Option Msg → QueryResult → Cursor → Verdict
  judge none (some _) q at = on_kind e purpose q.hop.response_kind q at
  judge (some TraceError.timeout) _ q at =
      at_hop OutcomeKind.timeout "TIMEOUT"
        "All candidate upstream servers timed out before the trace could continue." q.hop
  judge (some TraceError.loop_detected) _ q at =
      at_hop OutcomeKind.loop_detected "LOOP"
        "The trace repeated the same lookup path and stopped to avoid a loop." q.hop
  judge (some TraceError.max_depth) _ q at =
      at_hop OutcomeKind.max_depth "MAX_DEPTH" "The trace exceeded its maximum hop depth." q.hop
  judge (some TraceError.unusable_referral) _ q at = unusable_at q.hop
  judge _ _ q at = on_code env q.hop

  unfoldable pub verdict : QueryResult → Cursor → Verdict
  verdict q at = judge q.err q.response q at
