-- ===== src/Trace/Run/Answers.antt =====
-- The hops of a successful trace of backend/internal/trace/engine.go.
use mathlib.Core.List.Memᴰ.{append_right}
use dnswatcher.Prelude.{
  ℕ, ◌≡◌, refl, sym, ◌⊎◌, inl, inr, Bool, false, List, [], ◌∷◌, ◌++◌, Bytes, Memᴰ, All, All-mem,
  All-append, equal, Returns, Returns-map,
}
use dnswatcher.Contracts.{Hop}
use dnswatcher.Contracts.Kinds.{ResponseKind, OutcomeKind}
use dnswatcher.Trace.Dns.{Msg, Query, Reply, Env}
use dnswatcher.Trace.Records.{fqdn, first_cname}
use dnswatcher.Trace.Records.Sets.{
  HasPlainTypes, IsTyped, HasSet, HasAlias, has_type-HasSet, first_cname-HasAlias,
}
use dnswatcher.Trace.State.{Engine, TraceState}
use dnswatcher.Trace.Engine.Steps.{IsHop, Step, ask, log}
use dnswatcher.Trace.Engine.Results.{IsAlias}
use dnswatcher.Trace.Engine.Budget.{Reach-invariant}
use dnswatcher.Trace.Engine.Egress.{IsKnown}
use dnswatcher.Trace.Engine.Outcomes.{Succeeds, Leads, stays, follows, IsAnswered}
use dnswatcher.Trace.Run.{Readings, initial_state, traced}
use dnswatcher.Trace.Run.Promises.{traced-IsFinished}

-- The DNS library's records of each kind carry the type of that kind in their headers.
abbrev pub HasTypedReplies : Env → Type 0
HasTypedReplies env =
    (history : List Query) (query : Query) (message : Msg) (latency : ℕ)
    → env.network history query ≡ Reply.response message latency
    → All (IsTyped env) message.answer

module _ (env : Env) (plain : HasPlainTypes env) (typed : HasTypedReplies env) where
  -- An answer hop shows a set of the name and the type that it asked for.
  abbrev pub ShowsAnswer : Hop → Type 0
  ShowsAnswer hop =
      hop.response_kind ≡ ResponseKind.answer → HasSet env hop.qname hop.qtype hop.answer_rrsets

  -- From one name to another by CNAME sets that the hops show.
  pub data FollowsAliases (hops : List Hop) : Bytes → Bytes → Type 0 where
    same_name : {name : Bytes} → FollowsAliases hops name name
    by_alias :
        {name target final : Bytes} (hop : Hop)
        → Memᴰ hop hops
        → hop.response_kind ≡ ResponseKind.cname
        → hop.qname ≡ name
        → HasAlias env name target hop.answer_rrsets
        → FollowsAliases hops target final
        → FollowsAliases hops name final

  IsHop-ShowsAnswer :
      (e : Engine) (state : TraceState) (hop : Hop) → IsHop env e state hop → ShowsAnswer hop
  IsHop-ShowsAnswer e state hop ok k =
      let (response, rrsets, has) = ok.answered k in
      rw rrsets (has_type-HasSet env response.answer hop.qname hop.qtype plain has)

  Step-ShowsAnswer :
      (e : Engine) (s t : TraceState)
      → Step env e (IsKnown e) s t
      → All ShowsAnswer s.hops
      → All ShowsAnswer t.hops
  Step-ShowsAnswer e s t (ask _ _ _ _ _ _ _) h = h
  Step-ShowsAnswer e s t (log state hop ok) h =
      All-append ShowsAnswer state.hops (hop ∷ []) h (IsHop-ShowsAnswer e state hop ok, tt)

  IsAlias-HasAlias :
      (hop : Hop) (target : Bytes)
      → IsAlias env hop target
      → HasAlias env hop.qname target hop.answer_rrsets
  IsAlias-HasAlias hop target h =
      let given : equal (first_cname env h.response.answer hop.qname) [] ≡ false =
        rw h.found h.given in
      rw (sym h.found, h.rrsets)
        (first_cname-HasAlias env h.response.answer hop.qname plain
          (typed h.came.history h.came.query h.response h.came.latency h.came.sent) given)

  Leads-FollowsAliases :
      (hops : List Hop) {name final : Bytes}
      → Leads env hops name final
      → FollowsAliases hops name final
  Leads-FollowsAliases hops stays = same_name
  Leads-FollowsAliases hops (follows hop m k name alias rest) =
      by_alias hop m k name (rw name at (IsAlias-HasAlias hop _ alias))
        (Leads-FollowsAliases hops rest)

  -- The last hop shows an answer, or holds a negative one, for the type asked, and for the name to
  -- which the CNAMEs of the hops lead from the name asked.
  pub record AnswersQuestion (qname qtype : Bytes) (hops : List Hop) : Type 0 where
    pub front : List Hop
    pub hop : Hop
    pub splits : hops ≡ front ++ hop ∷ []
    pub leads : FollowsAliases hops qname hop.qname
    pub type : hop.qtype ≡ qtype
    pub shows :
        (hop.response_kind ≡ ResponseKind.nodata)
        ⊎ ((hop.response_kind ≡ ResponseKind.answer) × HasSet env hop.qname qtype hop.answer_rrsets)

  shows_of :
      (hop : Hop) (kind : ResponseKind)
      → hop.response_kind ≡ kind
      → Succeeds kind
      → ShowsAnswer hop
      → (hop.response_kind ≡ ResponseKind.nodata)
        ⊎ ((hop.response_kind ≡ ResponseKind.answer)
            × HasSet env hop.qname hop.qtype hop.answer_rrsets)
  shows_of hop ResponseKind.answer k s shown = inr (k, shown k)
  shows_of hop ResponseKind.nodata k s shown = inl k
  shows_of hop ResponseKind.unset k s shown = absurd s
  shows_of hop ResponseKind.cname k s shown = absurd s
  shows_of hop ResponseKind.referral k s shown = absurd s
  shows_of hop ResponseKind.error k s shown = absurd s

  IsAnswered-AnswersQuestion :
      (qname qtype : Bytes) (hops : List Hop)
      → All ShowsAnswer hops
      → IsAnswered env qname qtype hops
      → AnswersQuestion qname qtype hops
  IsAnswered-AnswersQuestion qname qtype hops shown a = record {
    front = a.front;
    hop = a.hop;
    splits = a.splits;
    leads = Leads-FollowsAliases hops a.leads;
    type = a.type;
    shows = rw a.type at (
        shows_of a.hop a.hop.response_kind refl a.kind (
          All-mem ShowsAnswer hops {a = a.hop} shown
            (rw a.splits (append_right a.front (Memᴰ.head refl)))));
  }

  -- If no type has a bar in its name, and the answer records of every reply carry their types in
  -- their headers, then a trace returns, and where its outcome is a success, the last hop has the
  -- type asked and the name to which CNAME sets of the recorded hops lead from the name asked, and
  -- is a negative answer or shows a set of that name and type.
  pub traced-AnswersQuestion :
      (e : Engine) (is_ip_literal : Bytes → Bool) (now : Readings) (input domain qtype : Bytes)
      → Returns
          (λ r. r.0.kind ≡ OutcomeKind.success → AnswersQuestion (fqdn domain) qtype r.1.hops)
          (traced env e is_ip_literal now input domain qtype)
  traced-AnswersQuestion e is_ip_literal now input domain qtype =
      let start : All ShowsAnswer (initial_state now input domain qtype).hops =
        unfold initial_state in tt in
      Returns-map _ _ (traced env e is_ip_literal now input domain qtype)
        (λ r finished success.
          IsAnswered-AnswersQuestion (fqdn domain) qtype r.1.hops
            (Reach-invariant env e (IsKnown e) (λ s. All ShowsAnswer s.hops) (Step-ShowsAnswer e)
              finished.made start)
            (finished.answers success))
        (traced-IsFinished env e is_ip_literal now input domain qtype)
