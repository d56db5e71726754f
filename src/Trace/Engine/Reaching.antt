-- ===== src/Trace/Engine/Reaching.antt =====
-- Every state that the functions of the engine return is reached by the steps of Trace/Engine/Steps.
use dnswatcher.Prelude.{
  ℕ, ◌+◌, ◌<◌, ◌≤◌, length, ◌≡◌, true, inl, inr, Bool-cases, List, [], ◌∷◌, Option, arith, Bytes,
  All, All-append, All-map, is_nil, map, codes, Returns, Returns-bind, Returns-if, Returns-map,
}
use dnswatcher.Trace.Dns.{Msg, Env}
use dnswatcher.Trace.Records.{ns_targets, glue_addrs, glue_of}
use dnswatcher.Trace.State.{ServerCandidate, Engine, TraceState, Referral}
use dnswatcher.Trace.Support.{Lookup, resolve_types, resolve_name_server_addresses, found_addresses}
use dnswatcher.Trace.Referral.{
  allowed_pairs, glue_pairs, support_pairs, candidate_at, next_candidates_for_referral,
}
use dnswatcher.Trace.Engine.Steps.{
  Reach, here, Reach-trans, Reach-queries_le, Reach-hops_le, Adds, Adds-nil, Adds-trans,
}

module _ (env : Env) (e : Engine) (Known : ServerCandidate → Type 0) where
  abbrev pub Reaches : TraceState → TraceState → Type 0
  Reaches = Reach env e Known

  -- The fuel that the inner calls have is enough in a state.
  abbrev pub IsEnough : ℕ → TraceState → Type 0
  IsEnough fuel state = (e.max_upstream_queries < state.upstream_queries + fuel) × (0 < fuel)

  -- Steps that add only hops of support lookups for a hop of this index or a later one.
  pub record Supports (index : ℕ) (start state : TraceState) : Type 0 where
    pub made : Reaches start state
    pub adds : Adds index start.hops state.hops

  pub Supports-here : (index : ℕ) (state : TraceState) → Supports index state state
  Supports-here index state = record { made = here; adds = Adds-nil index state.hops }

  pub Supports-trans :
      {index : ℕ} {s t u : TraceState}
      → Supports index s t
      → Supports index t u
      → Supports index s u
  Supports-trans first second = record {
    made = Reach-trans env e Known first.made second.made;
    adds = Adds-trans first.adds second.adds;
  }

  -- An inner call returns where its fuel is enough, and has made steps.
  abbrev pub LookupReaches : ℕ → Lookup → Type 0
  LookupReaches fuel lookup =
      (state : TraceState) (ns qtype : Bytes) (parent : ℕ)
      → IsEnough fuel state
      → parent ≤ length state.hops
      → Returns (λ r. Supports parent state r.1) (lookup state ns qtype parent)

  Supports-le :
      (index : ℕ) {s t : TraceState}
      → Supports index s t
      → index ≤ length s.hops
      → index ≤ length t.hops
  Supports-le index made le = omega (arith, Reach-hops_le env e Known made.made)

  pub IsEnough-Reach :
      (fuel : ℕ) {s t : TraceState} → Reaches s t → IsEnough fuel s → IsEnough fuel t
  IsEnough-Reach fuel made h = omega (arith, Reach-queries_le env e Known made)

  -- Steps in front of code that returns.
  Returns-Supports {ℓ} :
      {A : Type ℓ} (index : ℕ) {s t : TraceState} (m : Option (A × TraceState))
      → Supports index s t
      → Returns (λ r. Supports index t r.1) m
      → Returns (λ r. Supports index s r.1) m
  Returns-Supports index m made = Returns-map _ _ m (λ r more. Supports-trans made more)

  -- The addresses of candidates that the policy lets through.
  abbrev AreAllowed : List (Bytes × Bytes) → Type 0
  AreAllowed pairs = All (λ pair. e.allow pair.1 ≡ true) pairs

  allowed_pairs-AreAllowed : (ns : Bytes) (ips : List Bytes) → AreAllowed (allowed_pairs e ns ips)
  unfolding allowed_pairs
  allowed_pairs-AreAllowed ns [] = tt
  allowed_pairs-AreAllowed ns (ip ∷ ips) = elim (Bool-cases (e.allow ip)) [
    | inl allowed ↦ rw allowed (allowed, allowed_pairs-AreAllowed ns ips)
    | inr barred ↦ rw barred (allowed_pairs-AreAllowed ns ips)
  ]

  glue_pairs-AreAllowed :
      (glue : List (Bytes × List Bytes)) (names : List Bytes) → AreAllowed (glue_pairs e glue names)
  unfolding glue_pairs
  glue_pairs-AreAllowed glue [] = tt
  glue_pairs-AreAllowed glue (ns ∷ names) =
      All-append _ (allowed_pairs e ns (glue_of ns glue)) (glue_pairs e glue names)
        (allowed_pairs-AreAllowed ns (glue_of ns glue)) (glue_pairs-AreAllowed glue names)

  module _ (fuel : ℕ) (lookup : Lookup) (looks : LookupReaches fuel lookup) where
    resolve_types-Reach :
        (ns : Bytes) (parent : ℕ) (qtypes : List Bytes) (state : TraceState)
        → IsEnough fuel state
        → parent ≤ length state.hops
        → Returns (λ r. Supports parent state r.1) (resolve_types lookup ns parent qtypes state)
    unfolding resolve_types
    resolve_types-Reach ns parent [] state h le = Supports-here parent state
    resolve_types-Reach ns parent (qtype ∷ qtypes) state h le =
        Returns-bind _ _ (lookup state ns qtype parent) _ (looks state ns qtype parent h le)
          λ (result, state') made.
            Returns-if _ (is_nil (found_addresses ns qtype parent result state')) _ _
              (λ _. Returns-Supports parent (resolve_types lookup ns parent qtypes state') made (
                resolve_types-Reach ns parent qtypes state' (IsEnough-Reach fuel made.made h)
                  (Supports-le parent made le)))
              (λ _. made)

    support_pairs-Reach :
        (parent : ℕ) (names : List Bytes) (state : TraceState)
        → IsEnough fuel state
        → parent ≤ length state.hops
        → Returns
            (λ r. Supports parent state r.1 × AreAllowed r.0)
            (support_pairs e lookup parent names state)
    unfolding support_pairs resolve_name_server_addresses
    support_pairs-Reach parent [] state h le = (Supports-here parent state, tt)
    support_pairs-Reach parent (ns ∷ names) state h le =
        Returns-bind _ _ (resolve_name_server_addresses lookup ns parent state) _
          (resolve_types-Reach ns parent (codes "A" ∷ codes "AAAA" ∷ []) state h le)
          λ (ips, state') made.
            Returns-bind _ _ (support_pairs e lookup parent names state') _
              (support_pairs-Reach parent names state' (IsEnough-Reach fuel made.made h)
                (Supports-le parent made le))
              λ (later, state'') (more, allowed). (
                Supports-trans made more,
                All-append _ (allowed_pairs e ns ips) later (allowed_pairs-AreAllowed ns ips)
                    allowed,
              )

    -- The candidates of a referral, from glue and from support lookups.
    pub record RefersFrom (parent : ℕ) (state : TraceState) (r : Referral × TraceState)
        : Type 0 where
      pub made : Supports parent state r.1
      pub known : All Known r.0.candidates
      pub allowed : All (λ candidate. e.allow candidate.ip ≡ true) r.0.candidates

    module _
        (resolved : (name ip zone : Bytes)
          → Known (record {
            name = name;
            ip = ip;
            endpoint = e.endpoint_resolver ip;
            zone = zone;
          })) where
      candidate_at-known :
          (zone : Bytes) (pairs : List (Bytes × Bytes))
          → All Known (map (candidate_at e zone) pairs)
      candidate_at-known zone [] = tt
      candidate_at-known zone ((name, ip) ∷ pairs) =
          (resolved name ip zone, candidate_at-known zone pairs)

      pub next_candidates_for_referral-Reach :
          (state : TraceState) (response : Msg) (parent : ℕ)
          → IsEnough fuel state
          → parent ≤ length state.hops
          → Returns
              (RefersFrom parent state)
              (next_candidates_for_referral e lookup state response parent)
      unfolding next_candidates_for_referral
      next_candidates_for_referral-Reach state response parent h le =
          let names = ns_targets response.ns in
          Returns-if _ (is_nil (glue_pairs e (glue_addrs response.extra) names)) _ _
            (λ _.
              Returns-bind _ _ (support_pairs e lookup parent names state) _
                (support_pairs-Reach parent names state h le)
                λ (pairs, state') (made, allowed). record {
                  made = made;
                  known = candidate_at-known _ pairs;
                  allowed = All-map _ (candidate_at e _) pairs allowed;
                })
            (λ _.
              let pairs = glue_pairs e (glue_addrs response.extra) names in
              record {
                made = Supports-here parent state;
                known = candidate_at-known _ pairs;
                allowed =
                    All-map _ (candidate_at e _) pairs
                      (glue_pairs-AreAllowed (glue_addrs response.extra) names);
              })
