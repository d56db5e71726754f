-- ===== src/Trace/Run/Promises.antt =====
-- What `Trace` promises of its result and of the queries that it sends.
use dnswatcher.Prelude.{
  ℕ, suc, ◌+◌, ◌≤◌, ◌<◌, ◌≡◌, refl, Bool, ◌↔◌, if◌then◌else◌, ◌⊎◌, inl, inr, [], Option, none,
  arith, length, Bytes, All, All-of_mem, Returns, Returns-bind, Returns-map,
}
use dnswatcher.Contracts.{TraceRequest, TraceResult, FinalOutcome}
use dnswatcher.Contracts.Kinds.{OutcomeKind, Status}
use dnswatcher.Policy.Domain.{Result, ok, err, normalize_domain, normalize_qtype}
use dnswatcher.Trace.Dns.{Env}
use dnswatcher.Trace.State.{ServerCandidate, Engine, TraceState, Cursor, zero_hop}
use dnswatcher.Trace.Support.{is_success_kind}
use dnswatcher.Trace.Engine.{query_candidates, support_lookup}
use dnswatcher.Trace.Engine.Steps.{Reach-hops_le, Step, ask, log}
use dnswatcher.Trace.Engine.Results.{IsUnasked, IsOfRound}
use dnswatcher.Trace.Engine.Outcomes.{Fits}
use dnswatcher.Trace.Engine.Returning.{IsFinished, trace_name-IsFinished, round-IsResult}
use dnswatcher.Trace.Engine.Budget.{IsBudgeted, Reach-invariant, Step-IsBudgeted}
use dnswatcher.Trace.Engine.Egress.{
  IsKnown, IsAllowed, Step-IsAllowed, AreRecorded, Step-AreRecorded,
}
use dnswatcher.Trace.Run.{
  Readings, Traced, done, refused, initial_state, assemble, start_cursor, traced, run_trace,
  with_qtype, with_domain, trace,
}

pub roots-IsKnown : (e : Engine) → All (IsKnown e) e.roots
roots-IsKnown e = All-of_mem (IsKnown e) e.roots (λ c m. inr m)

-- A report on a request: its name and type are the normalized ones, its outcome fits its hops, the
-- hops are recorded from allowed servers, and the status is that of the outcome.
pub record IsReport (env : Env) (e : Engine) (is_ip_literal : Bytes → Bool) (req : TraceRequest)
    (result : TraceResult) : Type 0 where
  pub domain : normalize_domain env.unicode is_ip_literal req.domain ≡ ok result.normalized_domain
  pub qtype : normalize_qtype env.unicode req.qtype ≡ ok result.qtype
  pub input : result.input_domain ≡ req.domain
  pub fits : Fits result.hops result.final_outcome
  pub recorded : AreRecorded e [] result.hops
  pub status : (result.status ≡ Status.success) ↔ (result.final_outcome.kind ≡ OutcomeKind.success)
  pub counted : result.summary.total_hops ≡ length result.hops

-- What `Trace` may return for a request: a report, or the first error of the input policy.
abbrev pub Accounts : Env → Engine → (Bytes → Bool) → TraceRequest → Traced → Type 0
Accounts env e is_ip_literal req (done result) = IsReport env e is_ip_literal req result
Accounts env e is_ip_literal req (refused error) =
    (normalize_domain env.unicode is_ip_literal req.domain ≡ err error)
    ⊎ ((domain : Bytes) × (normalize_domain env.unicode is_ip_literal req.domain ≡ ok domain)
        × (normalize_qtype env.unicode req.qtype ≡ err error))

module _ (env : Env) (e : Engine) (is_ip_literal : Bytes → Bool) (now : Readings) where
  abbrev pub Finished : TraceState → Cursor → FinalOutcome × TraceState → Type 0
  Finished = IsFinished env e (IsKnown e) (roots-IsKnown e) none

  pub traced-IsFinished :
      (input domain qtype : Bytes)
      → Returns
          (Finished
            (initial_state now input domain qtype)
            (start_cursor env e is_ip_literal now domain qtype))
          (traced env e is_ip_literal now input domain qtype)
  unfolding traced initial_state
  traced-IsFinished input domain qtype =
      trace_name-IsFinished env e (IsKnown e) (roots-IsKnown e) (λ name ip zone. inl refl)
        (suc e.max_upstream_queries) none (start_cursor env e is_ip_literal now domain qtype)
        (initial_state now input domain qtype) (omega arith) (roots-IsKnown e) (λ barred. barred)

  -- An invariant of the steps holds where `traceName` returns, and it does return.
  traced-invariant :
      (P : TraceState → Type 0)
      → ((s t : TraceState) → Step env e (IsKnown e) s t → P s → P t)
      → (input domain qtype : Bytes) → P (initial_state now input domain qtype)
      → Returns (λ r. P r.1) (traced env e is_ip_literal now input domain qtype)
  traced-invariant P keep input domain qtype h =
      Returns-map _ _ (traced env e is_ip_literal now input domain qtype)
        (λ r finished. Reach-invariant env e (IsKnown e) P keep finished.made h)
        (traced-IsFinished input domain qtype)

  -- The trace returns, no pair of a server and a question is asked twice, the upstream queries stay
  -- within the budget, and at most two messages go out for each.
  pub traced-IsBudgeted :
      (input domain qtype : Bytes)
      → Returns (λ r. IsBudgeted e r.1) (traced env e is_ip_literal now input domain qtype)
  traced-IsBudgeted input domain qtype =
      traced-invariant (IsBudgeted e) (Step-IsBudgeted env e (IsKnown e)) input domain qtype (
        unfold initial_state in
        record { distinct = tt; counted = refl; within = omega arith; sent_le = omega arith })

  -- The trace returns, and every query that it sent went to an allowed address, at the endpoint of
  -- that address or of a configured root, and did not ask for recursion.
  pub traced-IsAllowed :
      (input domain qtype : Bytes)
      → Returns
          (λ r. All (IsAllowed e) r.1.history)
          (traced env e is_ip_literal now input domain qtype)
  traced-IsAllowed input domain qtype =
      traced-invariant (λ s. All (IsAllowed e) s.history) (Step-IsAllowed env e) input domain qtype
        (unfold initial_state in tt)

  -- The texts that a state of the trace never changes.
  record Keeps (input domain type : Bytes) (state : TraceState) : Type 0 where
    input_domain : state.input_domain ≡ input
    normalized_domain : state.normalized_domain ≡ domain
    qtype : state.qtype ≡ type

  Step-Keeps :
      (input domain qtype : Bytes) (s t : TraceState)
      → Step env e (IsKnown e) s t
      → Keeps input domain qtype s
      → Keeps input domain qtype t
  Step-Keeps input domain qtype s t (ask _ _ _ _ _ _ _) h = record {
    input_domain = h.input_domain;
    normalized_domain = h.normalized_domain;
    qtype = h.qtype;
  }
  Step-Keeps input domain qtype s t (log _ _ _) h = record {
    input_domain = h.input_domain;
    normalized_domain = h.normalized_domain;
    qtype = h.qtype;
  }

  success_status :
      (kind : OutcomeKind)
      → ((if is_success_kind kind then Status.success else Status.failure) ≡ Status.success)
        ↔ (kind ≡ OutcomeKind.success)
  success_status kind = ground arith

  run_trace-IsReport :
      (req : TraceRequest) (domain qtype : Bytes)
      → normalize_domain env.unicode is_ip_literal req.domain ≡ ok domain
      → normalize_qtype env.unicode req.qtype ≡ ok qtype
      → Returns
          (Accounts env e is_ip_literal req)
          (run_trace env e is_ip_literal now req.domain domain qtype)
  unfolding run_trace assemble
  run_trace-IsReport req domain qtype named typed =
      let start = initial_state now req.domain domain qtype in
      Returns-bind _ _ (traced env e is_ip_literal now req.domain domain qtype) _
        (traced-IsFinished req.domain domain qtype)
        λ (result, state) finished.
          let kept : Keeps req.domain domain qtype state =
            Reach-invariant env e (IsKnown e) (Keeps req.domain domain qtype)
              (Step-Keeps req.domain domain qtype) finished.made
              (unfold initial_state in
                record { input_domain = refl; normalized_domain = refl; qtype = refl }) in
          record {
            domain = rw kept.normalized_domain named;
            qtype = rw kept.qtype typed;
            input = kept.input_domain;
            fits = finished.fits;
            recorded =
                Reach-invariant env e (IsKnown e) (λ s. AreRecorded e [] s.hops)
                  (Step-AreRecorded env e (IsKnown e)) finished.made (unfold initial_state in tt);
            status = success_status result.kind;
            counted = refl;
          }

  with_qtype-Accounts :
      (req : TraceRequest) (domain : Bytes) (r : Result)
      → normalize_domain env.unicode is_ip_literal req.domain ≡ ok domain
      → normalize_qtype env.unicode req.qtype ≡ r
      → Returns (Accounts env e is_ip_literal req) (with_qtype env e is_ip_literal now req domain r)
  unfolding with_qtype
  with_qtype-Accounts req domain (ok qtype) named typed =
      run_trace-IsReport req domain qtype named typed
  with_qtype-Accounts req domain (err error) named typed = inr (domain, named, typed)

  with_domain-Accounts :
      (req : TraceRequest) (r : Result)
      → normalize_domain env.unicode is_ip_literal req.domain ≡ r
      → Returns (Accounts env e is_ip_literal req) (with_domain env e is_ip_literal now req r)
  unfolding with_domain
  with_domain-Accounts req (ok domain) named = with_qtype-Accounts req domain _ named refl
  with_domain-Accounts req (err error) named = inl named

  -- `Trace` returns for every request, whatever the network answers: with the first error of the
  -- input policy, or with a report on the request. The report has the request's domain and the
  -- normalized name and type; its outcome points at the last hop, and is a success only if that hop
  -- holds an answer or a negative answer; its status is a success exactly if its outcome is. It
  -- counts its hops. Each of them names an allowed server and has as its index a position up to its
  -- own, from which on all hops before it have this index or a higher one as their parent; only if no
  -- root is allowed can a hop be the zero hop instead. The zero hop may also stand among the hops
  -- between.
  pub trace-Accounts :
      (req : TraceRequest)
      → Returns (Accounts env e is_ip_literal req) (trace env e is_ip_literal now req)
  unfolding trace
  trace-Accounts req = with_domain-Accounts req _ refl

-- With more fuel than the budget has left, a round of `traceName` returns, and loses no hop. Either
-- it gives a hop of the round, also where support lookups record hops of their own before it is
-- appended: its index is the number of hops recorded when the round began, its server is allowed,
-- and it has the parent, name, type, purpose and zone of the round. Or it gives the zero hop, and then it
-- has changed nothing, and the budget was spent or the policy allows none of the candidates.
pub query_candidates-index :
    (env : Env) (e : Engine) (fuel : ℕ) (parent : Option ℕ) (at : Cursor) (state : TraceState)
    → e.max_upstream_queries < state.upstream_queries + suc fuel
    → Returns
        (λ r.
          (length state.hops ≤ length r.1.hops)
          × (((r.0.hop ≡ zero_hop) × IsUnasked e state at r.1)
              ⊎ IsOfRound e parent state at r.0.hop))
        (query_candidates env e (support_lookup env e fuel) parent at state)
query_candidates-index env e fuel parent at state h =
    let Known : ServerCandidate → Type 0 = λ _. Unit in
    Returns-map _ _ (query_candidates env e (support_lookup env e fuel) parent at state)
      (λ r result. (
        Reach-hops_le env e Known result.made.made,
        elim result.gives [ inl unasked ↦ inl unasked | inr given ↦ inr given.1 ],
      ))
      (round-IsResult env e Known (All-of_mem Known e.roots (λ _ _. tt)) (λ _ _ _. tt) fuel parent
        at state (h, omega arith) (All-of_mem Known at.candidates (λ _ _. tt)))
