-- ===== src/Trace/Engine/Judging.antt =====
-- The judgement of a response: what its hop records, and that it returns.
use dnswatcher.Prelude.{
  ℕ, ◌≡◌, ap, true, not, ◌&&◌, inl, inr, Bool-cases, List, [], arith, length, Bytes, All, is_nil,
  String, equal, Option, Returns, Returns-bind, Returns-if,
}
use dnswatcher.Contracts.{Hop, NextTarget}
use dnswatcher.Contracts.Kinds.{ResponseKind}
use dnswatcher.Trace.Dns.{Msg, Env}
use dnswatcher.Trace.Records.{has_type, first_cname, is_nodata, is_success}
use dnswatcher.Trace.State.{ServerCandidate, Engine, TraceState, Referral, Cursor}
use dnswatcher.Trace.Support.{Lookup}
use dnswatcher.Trace.Referral.{next_candidates_for_referral}
use dnswatcher.Trace.Response.{judged, judge_response, judge_referral}
use dnswatcher.Trace.Engine.Steps.{Adds, Reach-hops_le}
use dnswatcher.Trace.Engine.Reaching.{
  IsEnough, Supports, Supports-trans, LookupReaches, next_candidates_for_referral-Reach,
}
use dnswatcher.Trace.Engine.Results.{IsPending, Gives, IsResult}

module _ (env : Env) (e : Engine) (Known : ServerCandidate → Type 0) where
  judged-Gives :
      (parent : Option ℕ) (start state : TraceState) (at : Cursor) (response : Msg) (hop : Hop)
      (kind : ResponseKind) (explanation note : String) (targets : List NextTarget)
      → hop.index ≡ length start.hops
      → Adds (length start.hops) start.hops state.hops
      → IsPending env e parent at response hop
      → (kind ≡ ResponseKind.answer → has_type env response.answer at.qname at.qtype ≡ true)
      → Gives env e parent start at state
          (record (judged hop kind explanation note) { next_targets = targets })
  judged-Gives parent start state at response hop kind explanation note targets i adds p answers =
      inr (
        record {
          recorded = inr (record {
            server_allowed = p.allowed;
            front = start.hops;
            position = i;
            supports = rw i adds;
          });
          answered = λ k. (response, p.rrsets, rw (p.qname, p.qtype) (answers k));
        },
        record {
          index = i;
          parent_index = p.parent_index;
          server_allowed = p.allowed;
          hop_purpose = p.hop_purpose;
          zone_context = p.zone_context;
          qname = p.qname;
          qtype = p.qtype;
        },
      )

  module _ (fuel : ℕ) (lookup : Lookup) (looks : LookupReaches env e Known fuel lookup)
      (resolved : (name ip zone : Bytes)
        → Known
            (record { name = name; ip = ip; endpoint = e.endpoint_resolver ip; zone = zone })) where
    judge_referral-IsResult :
        (parent : Option ℕ) (start state : TraceState) (at : Cursor) (response : Msg) (hop : Hop)
        (referral : Referral)
        → Supports env e Known (length start.hops) start state
        → hop.index ≡ length start.hops
        → All Known referral.candidates
        → All (λ candidate. e.allow candidate.ip ≡ true) referral.candidates
        → IsPending env e parent at response hop
        → IsResult env e Known parent start at (judge_referral hop response referral, state)
    unfolding judge_referral
    judge_referral-IsResult parent start state at response hop referral made i known allowed p =
        elim (Bool-cases (is_nil referral.candidates)) [
          | inl none_left ↦ rw none_left (record {
            made = made;
            gives =
                judged-Gives parent start state at response hop ResponseKind.error _ _ _ i made.adds
                  p (λ k. cc);
            known = tt;
            allowed = tt;
            settled = λ k. cc;
          })
          | inr usable ↦ rw usable (record {
            made = made;
            gives =
                judged-Gives parent start state at response hop ResponseKind.referral _ _ _ i
                  made.adds p (λ k. cc);
            known = known;
            allowed = allowed;
            settled = λ _. record { kind = tt; name = p.qname; type = p.qtype; alias = λ k. cc };
          })
        ]

    pub judge_response-IsResult :
        (parent : Option ℕ) (start state : TraceState) (at : Cursor) (response : Msg) (hop : Hop)
        → Supports env e Known (length start.hops) start state
        → hop.index ≡ length start.hops
        → IsEnough env e Known fuel state
        → IsPending env e parent at response hop
        → Returns
            (IsResult env e Known parent start at)
            (judge_response env e lookup state at hop response)
    unfolding judge_response
    judge_response-IsResult parent start state at response hop made i h p =
        Returns-if _ (not (is_success env response)) _ _
          (λ _. record {
            made = made;
            gives =
                judged-Gives parent start state at response hop ResponseKind.error _ _ _ i made.adds
                  p (λ k. cc);
            known = tt;
            allowed = tt;
            settled = λ k. cc;
          })
          λ _.
            Returns-if _
              (not (equal (first_cname env response.answer at.qname) [])
                && not (has_type env response.answer at.qname at.qtype))
              _ _
              (λ aliased. record {
                made = made;
                gives =
                    judged-Gives parent start state at response hop ResponseKind.cname _ _ _ i
                      made.adds p (λ k. cc);
                known = tt;
                allowed = tt;
                settled = λ _. record {
                  kind = tt;
                  name = p.qname;
                  type = p.qtype;
                  alias = λ _. record {
                    response = response;
                    came = p.came;
                    rrsets = p.rrsets;
                    found = ap (first_cname env response.answer) p.qname;
                    given = ground arith;
                  };
                };
              })
              λ _.
                Returns-if _ (has_type env response.answer at.qname at.qtype) _ _
                  (λ has. record {
                    made = made;
                    gives =
                        judged-Gives parent start state at response hop ResponseKind.answer _ _ _ i
                          made.adds p (λ _. has);
                    known = tt;
                    allowed = tt;
                    settled =
                        λ _. record { kind = tt; name = p.qname; type = p.qtype; alias = λ k. cc };
                  })
                  λ _.
                    Returns-if _ (is_nodata env response) _ _
                      (λ _. record {
                        made = made;
                        gives =
                            judged-Gives parent start state at response hop ResponseKind.nodata _ _
                              _ i made.adds p (λ k. cc);
                        known = tt;
                        allowed = tt;
                        settled = λ _. record {
                          kind = tt;
                          name = p.qname;
                          type = p.qtype;
                          alias = λ k. cc;
                        };
                      })
                      λ _.
                        Returns-bind _ _
                          (next_candidates_for_referral e lookup state response hop.index) _
                          (next_candidates_for_referral-Reach env e Known fuel lookup looks resolved
                            state response hop.index h (rw i (Reach-hops_le env e Known made.made)))
                          λ (referral, state') refers.
                            judge_referral-IsResult parent start state' at response hop referral
                              (Supports-trans env e Known made (rw i at refers.made)) i refers.known
                              refers.allowed p
