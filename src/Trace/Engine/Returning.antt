-- ===== src/Trace/Engine/Returning.antt =====
-- `traceName` returns if its fuel exceeds the budget left, by steps, with an outcome that fits the
-- last hop.
use mathlib.Core.List.Memᴰ.{append_right}
use dnswatcher.Prelude.{
  ℕ, zero, suc, ◌≤◌, length, ◌≡◌, refl, sym, ◌∙◌, Option, some, arith, leb, Bytes, All, inl, inr,
  Memᴰ, Returns, Returns-bind, Returns-if, Returns-map,
}
use dnswatcher.Contracts.{FinalOutcome}
use dnswatcher.Contracts.Kinds.{HopPurpose, OutcomeKind}
use dnswatcher.Trace.Dns.{Env}
use dnswatcher.Trace.State.{ServerCandidate, Engine, TraceState, QueryResult, Cursor, append_hop}
use dnswatcher.Trace.Support.{Lookup}
use dnswatcher.Trace.Verdict.{Verdict, stop, go, verdict}
use dnswatcher.Trace.Engine.{
  query_candidates, trace_loop, trace_name, on_verdict, no_attempts, support_cursor, support_lookup,
}
use dnswatcher.Trace.Engine.Steps.{
  AreBarred, log, here, next, Reach-trans, Reach-mem, Reach-hops_le, Adds, Adds-nil, Adds-one,
  Adds-le, Adds-trans,
}
use dnswatcher.Trace.Engine.Reaching.{
  Reaches, Supports-here, IsEnough, IsEnough-Reach, LookupReaches,
}
use dnswatcher.Trace.Engine.Results.{IsResult}
use dnswatcher.Trace.Engine.Asking.{Gives-IsHop, Gives-IsUnder}
use dnswatcher.Trace.Engine.Rounds.{query_rest-IsResult}
use dnswatcher.Trace.Engine.Outcomes.{
  last_hop_index-append, Fits, stays, follows, IsAnswered, Continues, Sound, judge-Sound,
}

module _ (env : Env) (e : Engine) (Known : ServerCandidate → Type 0)
    (roots_known : All Known e.roots) where
  -- A trace from a state: the steps it has made, an outcome that fits its hops, and, where it is a
  -- success, an answer to the question.
  pub record IsFinished (parent : Option ℕ) (start : TraceState) (at : Cursor)
      (r : FinalOutcome × TraceState) : Type 0 where
    pub made : Reaches env e Known start r.1
    pub fits : Fits r.1.hops r.0
    pub adds :
        (index : ℕ)
        → parent ≡ some index
        → index ≤ length start.hops
        → Adds index start.hops r.1.hops
    pub answers : r.0.kind ≡ OutcomeKind.success → IsAnswered env at.qname at.qtype r.1.hops

  -- A round puts its hop before what a later round finishes.
  IsFinished-round :
      (parent : Option ℕ) (start : TraceState) (q : QueryResult) (at at' : Cursor)
      (state : TraceState) (r : FinalOutcome × TraceState)
      → Reaches env e Known start (append_hop q.hop state)
      → ((index : ℕ)
          → parent ≡ some index
          → index ≤ length start.hops
          → Adds index start.hops (append_hop q.hop state).hops)
      → Continues env e Known roots_known at q at'
      → IsFinished parent (append_hop q.hop state) at' r
      → IsFinished parent start at r
  IsFinished-round parent start q at at' state r made own c f = record {
    made = Reach-trans env e Known made f.made;
    fits = f.fits;
    adds = λ index given le.
        Adds-trans (own index given le)
          (f.adds index given (omega (arith, Reach-hops_le env e Known made)));
    answers = λ k.
        let a = f.answers k in
        record {
          front = a.front;
          hop = a.hop;
          splits = a.splits;
          kind = a.kind;
          type = a.type ∙ c.type;
          leads = elim c.asks [
            | inl same ↦ rw same at a.leads
            | inr (k, name, alias) ↦
                follows q.hop
                  (Reach-mem env e Known f.made q.hop (append_right state.hops (Memᴰ.head refl))) k
                  name alias a.leads
          ];
        };
  }

  module _
      (resolved : (name ip zone : Bytes)
        → Known
            (record { name = name; ip = ip; endpoint = e.endpoint_resolver ip; zone = zone })) where
    module _ (fuel : ℕ) (lookup : Lookup) (looks : LookupReaches env e Known fuel lookup) where
      query_candidates-IsResult :
          (parent : Option ℕ) (at : Cursor) (state : TraceState)
          → IsEnough env e Known (suc fuel) state
          → All Known at.candidates
          → Returns
              (IsResult env e Known parent state at)
              (query_candidates env e lookup parent at state)
      unfolding query_candidates
      query_candidates-IsResult parent at state h known =
          query_rest-IsResult env e Known fuel lookup looks resolved state parent _ at at.candidates
            no_attempts state (Supports-here env e Known (length state.hops) state) refl h known
            (inl (refl, refl, λ barred. barred))

      on_verdict-IsFinished :
          (parent : Option ℕ) (start : TraceState) (q : QueryResult) (at : Cursor)
          (state : TraceState) (again : Cursor → TraceState → Option (FinalOutcome × TraceState))
          (v : Verdict)
          → Reaches env e Known start (append_hop q.hop state)
          → ((index : ℕ)
              → parent ≡ some index
              → index ≤ length start.hops
              → Adds index start.hops (append_hop q.hop state).hops)
          → Sound env e Known roots_known at q v
          → ((at' : Cursor)
              → All Known at'.candidates
              → (AreBarred e at'.candidates → AreBarred e e.roots)
              → Returns
                  (IsFinished parent (append_hop q.hop state) at')
                  (again at' (append_hop q.hop state)))
          → Returns (IsFinished parent start at) (on_verdict again (append_hop q.hop state) v)
      unfolding on_verdict
      on_verdict-IsFinished parent start q at state again (stop result) made own (index, success)
            more =
          record {
            made = made;
            fits = record {
              terminal = index ∙ sym (last_hop_index-append state.hops q.hop);
              success = λ k. (state.hops, q.hop, refl, (success k).0);
            };
            adds = own;
            answers = λ k. record {
              front = state.hops;
              hop = q.hop;
              splits = refl;
              kind = (success k).0;
              type = (success k).2;
              leads = rw (sym (success k).1) stays;
            };
          }
      on_verdict-IsFinished parent start q at state again (go at') made own c more =
          Returns-map _ _ (again at' (append_hop q.hop state))
            (λ r f. IsFinished-round parent start q at at' state r made own c f)
            (more at' c.known c.usable)

      trace_loop-IsFinished :
          (parent : Option ℕ) (purpose : HopPurpose) (rounds : ℕ) (at : Cursor) (state : TraceState)
          → IsEnough env e Known (suc fuel) state
          → All Known at.candidates
          → (AreBarred e at.candidates → AreBarred e e.roots)
          → Returns
              (IsFinished parent state at)
              (trace_loop env e lookup parent purpose rounds at state)
      unfolding trace_loop
      trace_loop-IsFinished parent purpose zero at state h known usable = record {
        made = here;
        fits = record { terminal = refl; success = λ k. cc };
        adds = λ index given le. Adds-nil index state.hops;
        answers = λ k. cc;
      }
      trace_loop-IsFinished parent purpose (suc rounds) at state h known usable =
          Returns-if _ (leb e.max_upstream_queries state.upstream_queries) _ _
            (λ _. record {
              made = here;
              fits = record { terminal = refl; success = λ k. cc };
              adds = λ index given le. Adds-nil index state.hops;
              answers = λ k. cc;
            })
            λ within.
              Returns-bind _ _ (query_candidates env e lookup parent at state) _
                (query_candidates-IsResult parent at state h known)
                λ (q, state') result.
                  let hop_ok =
                    Gives-IsHop env e parent at state state' q.hop (ground arith) usable
                      result.gives in
                  let made = next result.made.made (log state' q.hop hop_ok) in
                  on_verdict-IsFinished parent state q at state' _ (verdict env e purpose q at) made
                    (λ index given le.
                      Adds-trans (Adds-le index (length state.hops) le result.made.adds) (
                        Adds-one index state'.hops q.hop
                          (Gives-IsUnder env e at state state' q.hop (rw given at result.gives))))
                    (unfold verdict in
                      judge-Sound env e Known roots_known purpose q.err q.response q at result.known
                        result.allowed result.settled)
                    λ at' known' usable'.
                      trace_loop-IsFinished parent purpose rounds at' (append_hop q.hop state')
                        (IsEnough-Reach env e Known (suc fuel) made h) known' usable'

    -- With more fuel than the budget has left, `traceName` returns.
    pub trace_name-IsFinished :
        (fuel : ℕ) (parent : Option ℕ) (at : Cursor) (state : TraceState)
        → IsEnough env e Known fuel state
        → All Known at.candidates
        → (AreBarred e at.candidates → AreBarred e e.roots)
        → Returns (IsFinished parent state at) (trace_name env e fuel parent at state)
    unfolding trace_name support_lookup
    trace_name-IsFinished zero parent at state h known usable = absurd (omega arith)
    trace_name-IsFinished (suc fuel) parent at state h known usable =
        trace_loop-IsFinished fuel (support_lookup env e fuel)
          (λ state' ns qtype index enough le.
            Returns-map _ _ (support_lookup env e fuel state' ns qtype index)
              (λ r finished. record { made = finished.made; adds = finished.adds index refl le })
              (trace_name-IsFinished fuel (some index) (support_cursor env e ns qtype) state' enough
                roots_known (λ barred. barred)))
          parent at.purpose e.max_depth at state h known usable

    support_lookup-Reach : (fuel : ℕ) → LookupReaches env e Known fuel (support_lookup env e fuel)
    unfolding support_lookup
    support_lookup-Reach fuel state ns qtype index enough le =
        Returns-map _ _ (trace_name env e fuel (some index) (support_cursor env e ns qtype) state)
          (λ r finished. record { made = finished.made; adds = finished.adds index refl le })
          (trace_name-IsFinished fuel (some index) (support_cursor env e ns qtype) state enough
            roots_known (λ barred. barred))

    -- The query of the candidates in a round of `traceName`, with its support lookups.
    pub round-IsResult :
        (fuel : ℕ) (parent : Option ℕ) (at : Cursor) (state : TraceState)
        → IsEnough env e Known (suc fuel) state
        → All Known at.candidates
        → Returns
            (IsResult env e Known parent state at)
            (query_candidates env e (support_lookup env e fuel) parent at state)
    round-IsResult fuel parent at state h known =
        query_candidates-IsResult fuel (support_lookup env e fuel) (support_lookup-Reach fuel)
          parent at state h known
