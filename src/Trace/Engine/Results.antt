-- ===== src/Trace/Engine/Results.antt =====
-- What a round of `queryCandidates` in backend/internal/trace/engine.go may give.
use dnswatcher.Prelude.{
  ℕ, ◌≤◌, ◌≡◌, true, false, ◌⊎◌, List, [], none, length, Bytes, All, equal, Option,
}
use dnswatcher.Contracts.{Hop}
use dnswatcher.Contracts.Kinds.{ResponseKind}
use dnswatcher.Trace.Dns.{Msg, Query, Reply, Env}
use dnswatcher.Trace.Records.{rrsets_from_section, first_cname}
use dnswatcher.Trace.State.{ServerCandidate, Engine, TraceState, QueryResult, Cursor, zero_hop}
use dnswatcher.Trace.Engine.Steps.{AreBarred, IsHop}
use dnswatcher.Trace.Engine.Reaching.{Supports}

-- The network sent this message in reply to a query.
pub record CameBack (env : Env) (message : Msg) : Type 0 where
  pub history : List Query
  pub query : Query
  pub latency : ℕ
  pub sent : env.network history query ≡ Reply.response message latency

-- A round ended at its start: the budget was spent, or the policy allows none of its candidates.
pub record IsUnasked (e : Engine) (start : TraceState) (at : Cursor) (state : TraceState)
    : Type 0 where
  pub unchanged : state ≡ start
  pub reason : (e.max_upstream_queries ≤ start.upstream_queries) ⊎ AreBarred e at.candidates

-- A hop of a round that began in a state: its index is the number of hops there, its server is
-- allowed, and it says what the round asks.
pub record IsOfRound (e : Engine) (parent : Option ℕ) (start : TraceState) (at : Cursor) (hop : Hop)
    : Type 0 where
  pub index : hop.index ≡ length start.hops
  pub parent_index : hop.parent_index ≡ parent
  pub server_allowed : e.allow hop.server_ip ≡ true
  pub hop_purpose : hop.hop_purpose ≡ at.purpose
  pub zone_context : hop.zone_context ≡ at.zone
  pub qname : hop.qname ≡ at.qname
  pub qtype : hop.qtype ≡ at.qtype

-- The kinds at which `traceName` goes on or succeeds.
abbrev pub Settles : ResponseKind → Type 0
Settles ResponseKind.unset = ⊥
Settles ResponseKind.error = ⊥
Settles _ = Unit

-- A hop that is made from a response and not yet judged.
pub record IsPending (env : Env) (e : Engine) (parent : Option ℕ) (at : Cursor) (response : Msg)
    (hop : Hop) : Type 0 where
  pub parent_index : hop.parent_index ≡ parent
  pub came : CameBack env response
  pub allowed : e.allow hop.server_ip ≡ true
  pub hop_purpose : hop.hop_purpose ≡ at.purpose
  pub zone_context : hop.zone_context ≡ at.zone
  pub rrsets : hop.answer_rrsets ≡ rrsets_from_section env "answer" response.answer
  pub qname : hop.qname ≡ at.qname
  pub qtype : hop.qtype ≡ at.qtype

-- A hop whose response has a CNAME for the name that was asked, with its target.
pub record IsAlias (env : Env) (hop : Hop) (target : Bytes) : Type 0 where
  pub response : Msg
  pub came : CameBack env response
  pub rrsets : hop.answer_rrsets ≡ rrsets_from_section env "answer" response.answer
  pub found : first_cname env response.answer hop.qname ≡ target
  pub given : equal target [] ≡ false

-- A round without an error: its hop has the name and the type that the round asks for, and the
-- target of a CNAME is that of the hop.
pub record IsSettled (env : Env) (at : Cursor) (q : QueryResult) : Type 0 where
  pub kind : Settles q.hop.response_kind
  pub name : q.hop.qname ≡ at.qname
  pub type : q.hop.qtype ≡ at.qtype
  pub alias : q.hop.response_kind ≡ ResponseKind.cname → IsAlias env q.hop q.cname_target

module _ (env : Env) (e : Engine) where
  -- The hop that a round gives: the zero hop where no candidate was asked or found visited.
  abbrev pub Gives : Option ℕ → TraceState → Cursor → TraceState → Hop → Type 0
  Gives parent start at state hop =
      ((hop ≡ zero_hop) × IsUnasked e start at state)
      ⊎ (IsHop env e state hop × IsOfRound e parent start at hop)

module _ (env : Env) (e : Engine) (Known : ServerCandidate → Type 0) where
  -- What a query of the candidates has done, and the hop that it gives.
  pub record IsResult (parent : Option ℕ) (start : TraceState) (at : Cursor)
      (r : QueryResult × TraceState) : Type 0 where
    pub made : Supports env e Known (length start.hops) start r.1
    pub gives : Gives env e parent start at r.1 r.0.hop
    pub known : All Known r.0.next_candidates
    pub allowed : All (λ candidate. e.allow candidate.ip ≡ true) r.0.next_candidates
    pub settled : r.0.err ≡ none → IsSettled env at r.0
