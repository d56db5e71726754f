-- ===== src/Trace/Engine/Steps.antt =====
-- The steps that change the state of a trace, as a relation: a candidate is asked, or a hop is
-- recorded. Every invariant of the engine is proved over this relation.
use mathlib.Core.List.{append_assoc, append-nil}
use mathlib.Core.List.Memᴰ.{append_left}
use dnswatcher.Prelude.{
  Memᴰ, ℕ, ◌≤◌, ◌<◌, ◌≡◌, refl, sym, ap, ◌∙◌, true, false, ◌⊎◌, inl, inr, some, ◌++◌, All-append,
  All-imp, List, [], ◌∷◌, arith, length, length-append, All, contains,
}
use dnswatcher.Contracts.{Hop}
use dnswatcher.Contracts.Kinds.{ResponseKind}
use dnswatcher.Trace.Dns.{Msg, Env}
use dnswatcher.Trace.Records.{rrsets_from_section, has_type}
use dnswatcher.Trace.State.{ServerCandidate, Engine, TraceState, Cursor, zero_hop, append_hop}
use dnswatcher.Trace.Support.{visited_key}
use dnswatcher.Trace.Exchange.{exchange}
use dnswatcher.Trace.Engine.{charge}

-- The policy allows none of the candidates.
abbrev pub AreBarred : Engine → List ServerCandidate → Type 0
AreBarred e candidates = All (λ candidate. e.allow candidate.ip ≡ false) candidates

-- A hop of a support lookup on behalf of a hop of this index or a later one; or the zero hop.
abbrev pub IsUnder : ℕ → Hop → Type 0
IsUnder index hop =
    (hop ≡ zero_hop) ⊎ ((parent : ℕ) × (hop.parent_index ≡ some parent) × (index ≤ parent))

-- The hops after are those before and some of support lookups.
pub record Adds (index : ℕ) (before after : List Hop) : Type 0 where
  pub added : List Hop
  pub splits : after ≡ before ++ added
  pub under : All (IsUnder index) added

pub Adds-nil : (index : ℕ) (hops : List Hop) → Adds index hops hops
Adds-nil index hops = record { added = []; splits = sym (append-nil hops); under = tt }

pub Adds-one :
    (index : ℕ) (hops : List Hop) (hop : Hop)
    → IsUnder index hop
    → Adds index hops (hops ++ hop ∷ [])
Adds-one index hops hop u = record { added = hop ∷ []; splits = refl; under = (u, tt) }

pub Adds-trans :
    {index : ℕ} {before between after : List Hop}
    → Adds index before between
    → Adds index between after
    → Adds index before after
Adds-trans {index} {before} first second = record {
  added = first.added ++ second.added;
  splits =
      second.splits
      ∙ ap (λ hops. hops ++ second.added) first.splits
      ∙ append_assoc before first.added second.added;
  under = All-append (IsUnder index) first.added second.added first.under second.under;
}

pub Adds-le :
    (index higher : ℕ) {before after : List Hop}
    → index ≤ higher
    → Adds higher before after
    → Adds index before after
Adds-le index higher le adds = record {
  added = adds.added;
  splits = adds.splits;
  under =
      All-imp (IsUnder higher) (IsUnder index)
        (λ hop u. elim u [
          | inl zero ↦ inl zero
          | inr (parent, given, above) ↦ inr (parent, given, omega arith)
        ])
        adds.added adds.under;
}

-- How a hop is recorded behind others: its server is allowed, its index is that of a position, and
-- all hops from there on are of support lookups on its behalf.
pub record IsPlaced (e : Engine) (before : List Hop) (hop : Hop) : Type 0 where
  pub server_allowed : e.allow hop.server_ip ≡ true
  pub front : List Hop
  pub position : hop.index ≡ length front
  pub supports : Adds hop.index front before

-- The zero hop is recorded only if no root is allowed.
abbrev pub IsRecorded : Engine → List Hop → Hop → Type 0
IsRecorded e before hop = ((hop ≡ zero_hop) × AreBarred e e.roots) ⊎ IsPlaced e before hop

module _ (env : Env) (e : Engine) where
  -- The hops that a trace may record in a state.
  pub record IsHop (state : TraceState) (hop : Hop) : Type 0 where
    pub recorded : IsRecorded e state.hops hop
    pub answered :
        hop.response_kind ≡ ResponseKind.answer
        → (response : Msg) × (hop.answer_rrsets ≡ rrsets_from_section env "answer" response.answer)
          × (has_type env response.answer hop.qname hop.qtype ≡ true)

  module _ (Known : ServerCandidate → Type 0) where
    pub data Step : TraceState → TraceState → Type 0 where
      ask :
          (state : TraceState) (candidate : ServerCandidate) (at : Cursor)
          → Known candidate
          → e.allow candidate.ip ≡ true
          → state.upstream_queries < e.max_upstream_queries
          → contains (visited_key candidate.ip at) state.visited ≡ false
          → Step state (
              charge
                (visited_key candidate.ip at)
                (exchange env e state.history candidate.endpoint at.qname at.qtype).1
                state)
      log : (state : TraceState) (hop : Hop) → IsHop state hop → Step state (append_hop hop state)

    pub data Reach (start : TraceState) : TraceState → Type 0 where
      here : Reach start start
      next : {s t : TraceState} → Reach start s → Step s t → Reach start t

    pub Reach-trans : {s t u : TraceState} → Reach s t → Reach t u → Reach s u
    Reach-trans r here = r
    Reach-trans r (next q step) = next (Reach-trans r q) step

    Step-hops_le : {s t : TraceState} → Step s t → length s.hops ≤ length t.hops
    Step-hops_le (ask _ _ _ _ _ _ _) = omega arith
    Step-hops_le (log s hop _) = omega (arith, length-append s.hops (hop ∷ []))

    -- Hops are only added.
    pub Reach-hops_le : {s t : TraceState} → Reach s t → length s.hops ≤ length t.hops
    Reach-hops_le here = omega arith
    Reach-hops_le (next r step) = omega (arith, Reach-hops_le r, Step-hops_le step)

    Step-mem : {s t : TraceState} → Step s t → (hop : Hop) → Memᴰ hop s.hops → Memᴰ hop t.hops
    Step-mem (ask _ _ _ _ _ _ _) hop m = m
    Step-mem (log s h _) hop m = append_left (h ∷ []) m

    -- No hop is lost.
    pub Reach-mem : {s t : TraceState} → Reach s t → (hop : Hop) → Memᴰ hop s.hops → Memᴰ hop t.hops
    Reach-mem here hop m = m
    Reach-mem (next r step) hop m = Step-mem step hop (Reach-mem r hop m)

    Step-queries_le : {s t : TraceState} → Step s t → s.upstream_queries ≤ t.upstream_queries
    Step-queries_le (ask _ _ _ _ _ _ _) = omega arith
    Step-queries_le (log s hop _) = omega arith

    -- The count of upstream queries never falls.
    pub Reach-queries_le : {s t : TraceState} → Reach s t → s.upstream_queries ≤ t.upstream_queries
    Reach-queries_le here = omega arith
    Reach-queries_le (next r step) = omega (arith, Reach-queries_le r, Step-queries_le step)
