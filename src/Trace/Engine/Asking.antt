-- ===== src/Trace/Engine/Asking.antt =====
-- The hops of attempts in `queryCandidates` of backend/internal/trace/engine.go, and its exchanges.
use dnswatcher.Prelude.{
  ℕ, ◌≤◌, ◌<◌, ◌≡◌, refl, Bool, true, false, if◌then◌else◌, ◌&&◌, ◌==◌, ltb, ◌⊎◌, inl, inr, List,
  [], ◌∷◌, Option, some, arith, length, Bytes, Bool-cases, String,
}
use dnswatcher.Contracts.Kinds.{Transport}
use dnswatcher.Contracts.{Hop}
use dnswatcher.Trace.Dns.{Msg, Env, NetError, Query, Reply}
use dnswatcher.Trace.State.{ServerCandidate, Engine, TraceState, Cursor, zero_hop, new_error_hop}
use dnswatcher.Trace.Response.{response_hop}
use dnswatcher.Trace.Exchange.{Exchange, answered, failed, from_tcp, from_udp, question, exchange}
use dnswatcher.Trace.Engine.{Attempts, client_error_hop, exhausted}
use dnswatcher.Trace.Engine.Steps.{AreBarred, IsHop, Adds, IsUnder}
use dnswatcher.Trace.Engine.Reaching.{Supports}
use dnswatcher.Trace.Engine.Results.{CameBack, IsOfRound, IsPending, Gives, IsResult}

abbrev pub CameIn : Env → Exchange → Type 0
CameIn env (answered response latency transport truncated) = CameBack env response
CameIn env (failed err) = Unit

module _ (env : Env) (e : Engine) where
  pub new_error_hop-Gives :
      (start state : TraceState) (parent : Option ℕ) (candidate : ServerCandidate) (at : Cursor)
      (code explanation note : String)
      → length state.hops ≡ length start.hops
      → Adds (length start.hops) start.hops state.hops
      → e.allow candidate.ip ≡ true
      → IsHop env e state
          (new_error_hop (length state.hops) parent candidate at code explanation note)
        × IsOfRound e parent start at
            (new_error_hop (length state.hops) parent candidate at code explanation note)
  unfolding new_error_hop
  new_error_hop-Gives start state parent candidate at code explanation note same adds h = (
    record {
      recorded = inr (record {
        server_allowed = h;
        front = start.hops;
        position = same;
        supports = rw same adds;
      });
      answered = λ k. cc;
    },
    record {
      index = same;
      parent_index = refl;
      server_allowed = h;
      hop_purpose = refl;
      zone_context = refl;
      qname = refl;
      qtype = refl;
    },
  )

  pub client_error_hop-Gives :
      (start state : TraceState) (parent : Option ℕ) (candidate : ServerCandidate) (at : Cursor)
      (err : NetError)
      → length state.hops ≡ length start.hops
      → Adds (length start.hops) start.hops state.hops
      → e.allow candidate.ip ≡ true
      → IsHop env e state (client_error_hop (length state.hops) parent candidate at err)
        × IsOfRound e parent start at (client_error_hop (length state.hops) parent candidate at err)
  client_error_hop-Gives start state parent candidate at NetError.deadline_exceeded same adds h =
      new_error_hop-Gives start state parent candidate at _ _ _ same adds h
  client_error_hop-Gives start state parent candidate at (NetError.failed text) same adds h =
      new_error_hop-Gives start state parent candidate at _ _ _ same adds h

  -- The last hop of the attempts so far, when some candidates are left: the zero hop only if
  -- nothing was sent and all candidates before these are barred.
  abbrev pub IsLast :
      Option ℕ → TraceState → Cursor → List ServerCandidate → TraceState → Hop → Type 0
  IsLast parent start at left state hop =
      ((hop ≡ zero_hop) × (state ≡ start) × (AreBarred e left → AreBarred e at.candidates))
      ⊎ (IsHop env e state hop × IsOfRound e parent start at hop)

  pub IsLast-skip :
      (parent : Option ℕ) (start : TraceState) (at : Cursor) (candidate : ServerCandidate)
      (left : List ServerCandidate) (state : TraceState) (hop : Hop)
      → e.allow candidate.ip ≡ false
      → IsLast parent start at (candidate ∷ left) state hop
      → IsLast parent start at left state hop
  IsLast-skip parent start at candidate left state hop barred (inl (zero, same, all)) =
      inl (zero, same, λ rest. all (barred, rest))
  IsLast-skip parent start at candidate left state hop barred (inr given) = inr given

  pub IsLast-spent :
      (parent : Option ℕ) (start : TraceState) (at : Cursor) (left : List ServerCandidate)
      (state : TraceState) (hop : Hop)
      → e.max_upstream_queries ≤ state.upstream_queries
      → IsLast parent start at left state hop
      → Gives env e parent start at state hop
  IsLast-spent parent start at left state hop spent (inl (zero, same, all)) =
      inl (zero, record { unchanged = same; reason = inl (rw same at spent) })
  IsLast-spent parent start at left state hop spent (inr given) = inr given

  pub IsLast-end :
      (parent : Option ℕ) (start : TraceState) (at : Cursor) (state : TraceState) (hop : Hop)
      → IsLast parent start at [] state hop
      → Gives env e parent start at state hop
  IsLast-end parent start at state hop (inl (zero, same, all)) =
      inl (zero, record { unchanged = same; reason = inr (all tt) })
  IsLast-end parent start at state hop (inr given) = inr given

  from_tcp-CameIn :
      (history : List Query) (query : Query) (latency : ℕ) (got : Reply)
      → env.network history query ≡ got
      → CameIn env (from_tcp latency got)
  unfolding from_tcp
  from_tcp-CameIn history query latency (Reply.response resp elapsed) sent = record {
    history = history;
    query = query;
    latency = elapsed;
    sent = sent;
  }
  from_tcp-CameIn history query latency (Reply.failure err) sent = tt

  if-CameIn :
      (b : Bool) (x y : Exchange × List Query)
      → CameIn env x.0
      → CameIn env y.0
      → CameIn env (if b then x else y).0
  if-CameIn true x y h k = h
  if-CameIn false x y h k = k

  from_udp-CameIn :
      (history : List Query) (udp tcp : Query) (got : Reply)
      → env.network history udp ≡ got
      → CameIn env (from_udp env e (udp ∷ history) tcp got).0
  unfolding from_udp
  from_udp-CameIn history udp tcp (Reply.response resp latency) sent =
      if-CameIn resp.truncated _ _ (from_tcp-CameIn (udp ∷ history) tcp latency _ refl)
        (record { history = history; query = udp; latency = latency; sent = sent })
  from_udp-CameIn history udp tcp (Reply.failure err) sent = tt

  -- The response of an exchange is the network's.
  pub exchange-CameIn :
      (history : List Query) (endpoint qname qtype : Bytes)
      → CameIn env (exchange env e history endpoint qname qtype).0
  unfolding exchange
  exchange-CameIn history endpoint qname qtype =
      from_udp-CameIn history (question env e Transport.udp endpoint qname qtype)
        (question env e Transport.tcp endpoint qname qtype) _ refl

  pub response_hop-IsPending :
      (state : TraceState) (parent : Option ℕ) (candidate : ServerCandidate) (at : Cursor)
      (response : Msg) (latency : ℕ) (transport : Transport) (truncated : Bool)
      → CameBack env response
      → e.allow candidate.ip ≡ true
      → IsPending env e parent at response (
          response_hop env
            (length state.hops)
            parent
            candidate
            at
            response
            latency
            transport
            truncated)
  unfolding response_hop
  response_hop-IsPending state parent candidate at response latency transport truncated came h =
      record {
        parent_index = refl;
        came = came;
        allowed = h;
        hop_purpose = refl;
        zone_context = refl;
        rrsets = refl;
        qname = refl;
        qtype = refl;
      }

  pub exhausted-IsResult :
      (parent : Option ℕ) (Known : ServerCandidate → Type 0) (total : ℕ) (tried : Attempts)
      (start state : TraceState) (at : Cursor)
      → Supports env e Known (length start.hops) start state
      → Gives env e parent start at state tried.last_hop
      → IsResult env e Known parent start at (exhausted total tried, state)
  unfolding exhausted
  exhausted-IsResult parent Known total tried start state at made given =
      elim (Bool-cases (tried.timeout_count == total && ltb 0 total)) [
        | inl all ↦
            rw all
              (record { made = made; gives = given; known = tt; allowed = tt; settled = λ k. cc })
        | inr some_left ↦
            rw some_left
              (record { made = made; gives = given; known = tt; allowed = tt; settled = λ k. cc })
      ]

module _ (env : Env) (e : Engine) where
  zero_hop-IsHop : (state : TraceState) → AreBarred e e.roots → IsHop env e state zero_hop
  unfolding zero_hop
  zero_hop-IsHop state barred = record { recorded = inl (refl, barred); answered = λ k. cc }

  -- A round within the budget gives a hop that may be recorded.
  pub Gives-IsHop :
      (parent : Option ℕ) (at : Cursor) (start state : TraceState) (hop : Hop)
      → start.upstream_queries < e.max_upstream_queries
      → (AreBarred e at.candidates → AreBarred e e.roots)
      → Gives env e parent start at state hop
      → IsHop env e state hop
  Gives-IsHop parent at start state hop room usable (inr given) = given.0
  Gives-IsHop parent at start state hop room usable (inl (zero, unasked)) = elim unasked.reason [
    | inl spent ↦ absurd (omega arith)
    | inr barred ↦ rw zero (zero_hop-IsHop state (usable barred))
  ]

  -- The hop of a round of a support lookup.
  pub Gives-IsUnder :
      (at : Cursor) (start state : TraceState) (hop : Hop) {index : ℕ}
      → Gives env e (some index) start at state hop
      → IsUnder index hop
  Gives-IsUnder at start state hop (inl unasked) = inl unasked.0
  Gives-IsUnder at start state hop {index} (inr given) =
      inr (index, given.1.parent_index, omega arith)
