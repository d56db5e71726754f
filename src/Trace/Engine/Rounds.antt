-- ===== src/Trace/Engine/Rounds.antt =====
-- The loop of `queryCandidates` returns, by steps.
use dnswatcher.Prelude.{
  ℕ, suc, ◌≡◌, true, not, inr, List, [], ◌∷◌, Option, some, arith, length, leb, contains, Bytes,
  All, Returns, Returns-if,
}
use dnswatcher.Trace.Dns.{Env, NetError}
use dnswatcher.Trace.State.{ServerCandidate, Engine, TraceState, TraceError, QueryResult, Cursor}
use dnswatcher.Trace.Support.{Lookup, visited_key}
use dnswatcher.Trace.Response.{response_hop}
use dnswatcher.Trace.Exchange.{Exchange, answered, failed, exchange}
use dnswatcher.Trace.Engine.{
  charge, query_rest, Attempts, client_error_hop, after_failure, on_exchange,
}
use dnswatcher.Trace.Engine.Steps.{ask, next}
use dnswatcher.Trace.Engine.Reaching.{Supports, IsEnough, LookupReaches}
use dnswatcher.Trace.Engine.Results.{IsResult}
use dnswatcher.Trace.Engine.Judging.{judge_response-IsResult}
use dnswatcher.Trace.Engine.Asking.{
  CameIn, new_error_hop-Gives, client_error_hop-Gives, IsLast, IsLast-skip, IsLast-spent,
  IsLast-end, exchange-CameIn, response_hop-IsPending, exhausted-IsResult,
}

module _ (env : Env) (e : Engine) where
  module _ (Known : ServerCandidate → Type 0) (fuel : ℕ) (lookup : Lookup)
      (looks : LookupReaches env e Known fuel lookup)
      (resolved : (name ip zone : Bytes)
        → Known
            (record { name = name; ip = ip; endpoint = e.endpoint_resolver ip; zone = zone })) where
    on_exchange-IsResult :
        (start : TraceState) (parent : Option ℕ) (state : TraceState) (at : Cursor)
        (candidate : ServerCandidate) (retry : NetError → Option (QueryResult × TraceState))
        (got : Exchange)
        → Supports env e Known (length start.hops) start state
        → length state.hops ≡ length start.hops
        → IsEnough env e Known fuel state
        → e.allow candidate.ip ≡ true
        → CameIn env got
        → ((err : NetError) → Returns (IsResult env e Known parent start at) (retry err))
        → Returns
            (IsResult env e Known parent start at)
            (on_exchange env e lookup parent state at (length state.hops) candidate retry got)
    unfolding on_exchange
    on_exchange-IsResult start parent state at candidate retry (answered response l t b) made same h
          allowed came again =
        judge_response-IsResult env e Known fuel lookup looks resolved parent start state at
          response _ made (unfold response_hop in same) h
          (response_hop-IsPending env e state parent candidate at response l t b came allowed)
    on_exchange-IsResult start parent state at candidate retry (failed err) made same h allowed came
          again =
        again err

    pub query_rest-IsResult :
        (start : TraceState) (parent : Option ℕ) (total : ℕ) (at : Cursor)
        (candidates : List ServerCandidate) (tried : Attempts) (state : TraceState)
        → Supports env e Known (length start.hops) start state
        → length state.hops ≡ length start.hops
        → IsEnough env e Known (suc fuel) state
        → All Known candidates
        → IsLast env e parent start at candidates state tried.last_hop
        → Returns
            (IsResult env e Known parent start at)
            (query_rest env e lookup parent total at candidates tried state)
    unfolding query_rest
    query_rest-IsResult start parent total at [] tried state made same h known last =
        exhausted-IsResult env e parent Known total tried start state at made
          (IsLast-end env e parent start at state tried.last_hop last)
    query_rest-IsResult start parent total at (candidate ∷ rest) tried state made same h
          (known, others) last =
        let key = visited_key candidate.ip at in
        let sent = exchange env e state.history candidate.endpoint at.qname at.qtype in
        Returns-if _ (leb e.max_upstream_queries state.upstream_queries) _ _
          (λ spent. record {
            made = made;
            gives =
                IsLast-spent env e parent start at (candidate ∷ rest) state tried.last_hop
                  (ground arith) last;
            known = tt;
            allowed = tt;
            settled = λ k. cc;
          })
          λ within.
            Returns-if _ (not (e.allow candidate.ip)) _ _
              (λ barred.
                query_rest-IsResult start parent total at rest
                  (record tried { last_err = some TraceError.unusable_referral }) state made same h
                  others
                  (IsLast-skip env e parent start at candidate rest state tried.last_hop
                    (ground arith) last))
              λ permitted.
                let allowed : e.allow candidate.ip ≡ true = ground arith in
                Returns-if _ (contains key state.visited) _ _
                  (λ _. record {
                    made = made;
                    gives = inr (
                        new_error_hop-Gives env e start state parent candidate at _ _ _ same
                          made.adds allowed);
                    known = tt;
                    allowed = tt;
                    settled = λ k. cc;
                  })
                  λ fresh.
                    let state' = charge key sent.1 state in
                    let made' : Supports env e Known (length start.hops) start state' = record {
                      made =
                          next made.made
                            (ask state candidate at known allowed (ground arith) fresh);
                      adds = made.adds;
                    } in
                    on_exchange-IsResult start parent state' at candidate _ sent.0 made' same
                      (ground arith) allowed
                      (exchange-CameIn env e state.history candidate.endpoint at.qname at.qtype)
                      λ err.
                        query_rest-IsResult start parent total at rest
                          (after_failure
                            (client_error_hop (length state.hops) parent candidate at err) err
                            tried)
                          state' made' same (omega arith) others
                          (inr (
                            client_error_hop-Gives env e start state' parent candidate at err same
                              made'.adds allowed))
