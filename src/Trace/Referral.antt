-- ===== src/Trace/Referral.antt =====
-- `nextCandidatesForReferral` of backend/internal/trace/engine.go.
pub mod Candidates
pub mod Glue
use dnswatcher.Prelude.{
  ℕ, List, [], ◌∷◌, ◌++◌, map, Option, some, if◌then◌else◌, ◌>>=◌, is_nil, Bytes, String,
}
use dnswatcher.Trace.Dns.{Msg}
use dnswatcher.Trace.Records.{ns_targets, glue_addrs, glue_of, referral_zone}
use dnswatcher.Trace.State.{ServerCandidate, Engine, TraceState, Referral}
use dnswatcher.Trace.Support.{Lookup, resolve_name_server_addresses}

module _ (e : Engine) where
  -- The pairs of a name and an address that the policy lets through.
  unfoldable pub allowed_pairs : Bytes → List Bytes → List (Bytes × Bytes)
  allowed_pairs ns [] = []
  allowed_pairs ns (ip ∷ ips) =
      let later = allowed_pairs ns ips in if e.allow ip then (ns, ip) ∷ later else later

  unfoldable pub glue_pairs : List (Bytes × List Bytes) → List Bytes → List (Bytes × Bytes)
  glue_pairs glue [] = []
  glue_pairs glue (ns ∷ names) = allowed_pairs ns (glue_of ns glue) ++ glue_pairs glue names

  -- The loop of support lookups over the names.
  unfoldable pub support_pairs :
      Lookup → ℕ → List Bytes → TraceState → Option (List (Bytes × Bytes) × TraceState)
  support_pairs lookup parent [] state = some ([], state)
  support_pairs lookup parent (ns ∷ names) state = do
    (ips, state') ← resolve_name_server_addresses lookup ns parent state
    (later, state'') ← support_pairs lookup parent names state'
    some (allowed_pairs ns ips ++ later, state'')

  abbrev pub candidate_at : Bytes → Bytes × Bytes → ServerCandidate
  candidate_at zone pair = record {
    name = pair.0;
    ip = pair.1;
    endpoint = e.endpoint_resolver pair.1;
    zone = zone;
  }

  -- The two slices that grow together.
  abbrev pub referral_to : Bytes → String → String → List (Bytes × Bytes) → Referral
  referral_to zone reason note pairs = record {
    candidates = map (candidate_at zone) pairs;
    next_targets =
        map
          (λ pair. record {
            server_name = pair.0;
            server_ip = pair.1;
            zone_context = zone;
            reason = reason;
          })
          pairs;
    note = note;
  }

  -- No candidates stand for `errUnusableReferral`: the caller treats the two alike.
  unfoldable pub next_candidates_for_referral :
      Lookup → TraceState → Msg → ℕ → Option (Referral × TraceState)
  next_candidates_for_referral lookup state response parent =
      let names = ns_targets response.ns in
      let zone = referral_zone response.ns in
      let glued = glue_pairs (glue_addrs response.extra) names in
      if is_nil glued
      then (do
        (pairs, state') ← support_pairs lookup parent names state
        some (
          referral_to zone "Resolved nameserver address with a support lookup."
              "Referral continuation used glue when available and support lookups when glue was missing."
              pairs,
          state',
        ))
      else some (
        referral_to zone "Glue from referral response."
            "Referral continuation used safe glue records from the response." glued,
        state,
      )
