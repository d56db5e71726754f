-- ===== src/Trace/Engine/Egress.antt =====
-- Where the queries of a trace go.
use mathlib.Core.List.{Memᴰ, append_assoc, append-nil}
use dnswatcher.Prelude.{◌≡◌, refl, true, false, ◌⊎◌, List, [], ◌∷◌, ◌++◌, arith, Bytes, All}
use dnswatcher.Contracts.{Hop}
use dnswatcher.Contracts.Kinds.{Transport}
use dnswatcher.Trace.Dns.{Env, Query, Reply, response, failure}
use dnswatcher.Trace.State.{ServerCandidate, Engine, TraceState}
use dnswatcher.Trace.Exchange.{question, from_udp, exchange}
use dnswatcher.Trace.Engine.Steps.{IsRecorded, Step, ask, log}

-- A candidate whose endpoint is that of its address, or a configured root.
abbrev pub IsKnown : Engine → ServerCandidate → Type 0
IsKnown e candidate =
    (candidate.endpoint ≡ e.endpoint_resolver candidate.ip) ⊎ Memᴰ candidate e.roots

-- A query goes to a candidate whose address the destination policy allows, and does not ask for
-- recursion.
pub record IsAllowed (e : Engine) (query : Query) : Type 0 where
  pub candidate : ServerCandidate
  pub known : IsKnown e candidate
  pub allowed : e.allow candidate.ip ≡ true
  pub endpoint : query.endpoint ≡ candidate.endpoint
  pub iterative : query.recursion_desired ≡ false

module _ (env : Env) (e : Engine) where
  question-IsAllowed :
      (net : Transport) (candidate : ServerCandidate) (qname qtype : Bytes)
      → IsKnown e candidate
      → e.allow candidate.ip ≡ true
      → IsAllowed e (question env e net candidate.endpoint qname qtype)
  unfolding question
  question-IsAllowed net candidate qname qtype known allowed = record {
    candidate = candidate;
    known = known;
    allowed = allowed;
    endpoint = refl;
    iterative = refl;
  }

  from_udp-IsAllowed :
      (history : List Query) (tcp : Query) (got : Reply)
      → All (IsAllowed e) history
      → IsAllowed e tcp
      → All (IsAllowed e) (from_udp env e history tcp got).1
  unfolding from_udp
  from_udp-IsAllowed history tcp (response resp latency) h k = ground arith
  from_udp-IsAllowed history tcp (failure err) h k = h

  exchange-IsAllowed :
      (history : List Query) (candidate : ServerCandidate) (qname qtype : Bytes)
      → All (IsAllowed e) history
      → IsKnown e candidate
      → e.allow candidate.ip ≡ true
      → All (IsAllowed e) (exchange env e history candidate.endpoint qname qtype).1
  unfolding exchange
  exchange-IsAllowed history candidate qname qtype h known allowed =
      from_udp-IsAllowed _ _ _
        (question-IsAllowed Transport.udp candidate qname qtype known allowed, h)
        (question-IsAllowed Transport.tcp candidate qname qtype known allowed)

  pub Step-IsAllowed :
      (s t : TraceState)
      → Step env e (IsKnown e) s t
      → All (IsAllowed e) s.history
      → All (IsAllowed e) t.history
  Step-IsAllowed s t (ask state candidate at known allowed room fresh) h =
      exchange-IsAllowed state.history candidate at.qname at.qtype h known allowed
  Step-IsAllowed s t (log state hop ok) h = h

-- Hops recorded one after another, behind those before.
abbrev pub AreRecorded : Engine → List Hop → List Hop → Type 0
AreRecorded e before [] = Unit
AreRecorded e before (hop ∷ hops) =
    IsRecorded e before hop × AreRecorded e (before ++ hop ∷ []) hops

AreRecorded-append :
    (e : Engine) (before hops : List Hop) (hop : Hop)
    → AreRecorded e before hops
    → IsRecorded e (before ++ hops) hop
    → AreRecorded e before (hops ++ hop ∷ [])
AreRecorded-append e before [] hop h new = (rw (append-nil before) at new, tt)
AreRecorded-append e before (first ∷ hops) hop (given, rest) new = (
  given,
  AreRecorded-append e (before ++ first ∷ []) hops hop rest
      (rw (append_assoc before (first ∷ []) hops) new),
)

pub Step-AreRecorded :
    (env : Env) (e : Engine) (Known : ServerCandidate → Type 0) (s t : TraceState)
    → Step env e Known s t
    → AreRecorded e [] s.hops
    → AreRecorded e [] t.hops
Step-AreRecorded env e Known s t (ask state candidate at known allowed room fresh) h = h
Step-AreRecorded env e Known s t (log state hop ok) h =
    AreRecorded-append e [] state.hops hop h ok.recorded
