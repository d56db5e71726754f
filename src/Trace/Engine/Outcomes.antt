-- ===== src/Trace/Engine/Outcomes.antt =====
-- What the verdict on a round of `traceName` in backend/internal/trace/engine.go carries on, and what
-- an outcome says.
use dnswatcher.Prelude.{
  ◌≡◌, refl, true, false, pos, List, [], ◌∷◌, ◌++◌, Option, none, some, arith, Bytes, All, is_nil,
  Bool-cases, ◌⊎◌, inl, inr, Memᴰ,
}
use dnswatcher.Contracts.{Hop, FinalOutcome}
use dnswatcher.Contracts.Kinds.{HopPurpose, ResponseKind, OutcomeKind}
use dnswatcher.Trace.Dns.{Msg, Env}
use dnswatcher.Trace.State.{
  ServerCandidate, Engine, TraceError, QueryResult, Cursor, last_hop_index,
}
use dnswatcher.Trace.Verdict.{Verdict, stop, go, on_kind, on_code, judge}
use dnswatcher.Trace.Engine.Steps.{AreBarred}
use dnswatcher.Trace.Engine.Results.{Settles, IsAlias, IsSettled}

-- The kinds of hop at which a trace succeeds.
abbrev pub Succeeds : ResponseKind → Type 0
Succeeds ResponseKind.answer = Unit
Succeeds ResponseKind.nodata = Unit
Succeeds _ = ⊥

pub last_hop_index-append :
    (hops : List Hop) (hop : Hop) → last_hop_index (hops ++ hop ∷ []) ≡ pos hop.index
unfolding last_hop_index
last_hop_index-append [] hop = refl
last_hop_index-append (h ∷ []) hop = refl
last_hop_index-append (h ∷ h' ∷ hops) hop = last_hop_index-append (h' ∷ hops) hop

-- An outcome fits the hops recorded: it points at the last of them, and if it is a success then
-- that hop holds an answer or a negative answer.
pub record Fits (hops : List Hop) (result : FinalOutcome) : Type 0 where
  pub terminal : result.terminal_hop_index ≡ last_hop_index hops
  pub success :
      result.kind ≡ OutcomeKind.success
      → (front : List Hop) × (hop : Hop) × (hops ≡ front ++ hop ∷ []) × Succeeds hop.response_kind

-- From one name to another by the CNAMEs that hops have found.
pub data Leads (env : Env) (hops : List Hop) : Bytes → Bytes → Type 0 where
  stays : {name : Bytes} → Leads env hops name name
  follows :
      {name target final : Bytes} (hop : Hop)
      → Memᴰ hop hops
      → hop.response_kind ≡ ResponseKind.cname
      → hop.qname ≡ name
      → IsAlias env hop target
      → Leads env hops target final
      → Leads env hops name final

-- The last hop answers a question: it has its type, its name is where the CNAMEs lead from the name
-- asked, and it holds an answer or a negative answer.
pub record IsAnswered (env : Env) (qname qtype : Bytes) (hops : List Hop) : Type 0 where
  pub front : List Hop
  pub hop : Hop
  pub splits : hops ≡ front ++ hop ∷ []
  pub kind : Succeeds hop.response_kind
  pub type : hop.qtype ≡ qtype
  pub leads : Leads env hops qname hop.qname

module _ (env : Env) (e : Engine) (Known : ServerCandidate → Type 0)
    (roots_known : All Known e.roots) where
  -- A question that follows from a round's result: the same, or that for the target of a CNAME.
  pub record Continues (at : Cursor) (q : QueryResult) (at' : Cursor) : Type 0 where
    pub known : All Known at'.candidates
    pub usable : AreBarred e at'.candidates → AreBarred e e.roots
    pub type : at'.qtype ≡ at.qtype
    pub asks :
        (at'.qname ≡ at.qname)
        ⊎ ((q.hop.response_kind ≡ ResponseKind.cname)
            × (q.hop.qname ≡ at.qname)
            × IsAlias env q.hop at'.qname)

  -- What a verdict on a query's result carries on.
  abbrev pub Sound : Cursor → QueryResult → Verdict → Type 0
  Sound at q (stop result) =
      (result.terminal_hop_index ≡ pos q.hop.index)
      × (result.kind ≡ OutcomeKind.success
          → Succeeds q.hop.response_kind × (q.hop.qname ≡ at.qname) × (q.hop.qtype ≡ at.qtype))
  Sound at q (go at') = Continues at q at'

  -- Candidates from a referral are allowed.
  ne_nil-usable :
      (candidates : List ServerCandidate)
      → is_nil candidates ≡ false
      → All (λ candidate. e.allow candidate.ip ≡ true) candidates
      → ¬ (AreBarred e candidates)
  ne_nil-usable [] left allowed barred = cc
  ne_nil-usable (candidate ∷ candidates) left (allowed, _) (barred, _) = cc

  on_kind-Sound :
      (purpose : HopPurpose) (kind : ResponseKind) (q : QueryResult) (at : Cursor)
      → All Known q.next_candidates
      → All (λ candidate. e.allow candidate.ip ≡ true) q.next_candidates
      → q.hop.response_kind ≡ kind
      → Settles kind
      → IsSettled env at q
      → Sound at q (on_kind e purpose kind q at)
  unfolding on_kind
  on_kind-Sound purpose ResponseKind.answer q at known allowed k s a =
      (refl, λ _. (rw k tt, a.name, a.type))
  on_kind-Sound purpose ResponseKind.nodata q at known allowed k s a =
      (refl, λ _. (rw k tt, a.name, a.type))
  on_kind-Sound purpose ResponseKind.cname q at known allowed k s a = record {
    known = roots_known;
    usable = λ barred. barred;
    type = refl;
    asks = inr (k, a.name, a.alias k);
  }
  on_kind-Sound purpose ResponseKind.referral q at known allowed k s a =
      elim (Bool-cases (is_nil q.next_candidates)) [
        | inl out ↦ rw out (refl, λ bad. cc)
        | inr left ↦ rw left (record {
          known = known;
          usable = λ barred. absurd (ne_nil-usable q.next_candidates left allowed barred);
          type = refl;
          asks = inl refl;
        })
      ]
  on_kind-Sound purpose ResponseKind.unset q at known allowed k s a = elim s [ ]
  on_kind-Sound purpose ResponseKind.error q at known allowed k s a = elim s [ ]

  on_code-Sound : (at : Cursor) (q : QueryResult) → Sound at q (on_code env q.hop)
  unfolding on_code
  on_code-Sound at q = ground arith

  pub judge-Sound :
      (purpose : HopPurpose) (err : Option TraceError) (response : Option Msg) (q : QueryResult)
      (at : Cursor)
      → All Known q.next_candidates
      → All (λ candidate. e.allow candidate.ip ≡ true) q.next_candidates
      → (err ≡ none → IsSettled env at q)
      → Sound at q (judge env e purpose err response q at)
  unfolding judge
  judge-Sound purpose none (some _) q at known allowed s =
      on_kind-Sound purpose q.hop.response_kind q at known allowed refl (s refl).kind (s refl)
  judge-Sound purpose none none q at known allowed s = on_code-Sound at q
  judge-Sound purpose (some TraceError.timeout) response q at known allowed s = (refl, λ bad. cc)
  judge-Sound purpose (some TraceError.loop_detected) response q at known allowed s =
      (refl, λ bad. cc)
  judge-Sound purpose (some TraceError.max_depth) response q at known allowed s = (refl, λ bad. cc)
  judge-Sound purpose (some TraceError.unusable_referral) response q at known allowed s =
      (refl, λ bad. cc)
  judge-Sound purpose (some (TraceError.client _)) response q at known allowed s =
      on_code-Sound at q
  judge-Sound purpose (some (TraceError.rcode_error _)) response q at known allowed s =
      on_code-Sound at q
