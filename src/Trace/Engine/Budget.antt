-- ===== src/Trace/Engine/Budget.antt =====
-- The budget of queries, and that none of them repeats another.
use dnswatcher.Prelude.{suc, ◌*◌, ◌≤◌, ◌≡◌, false, List, [], ◌∷◌, arith, length, contains, Bytes}
use dnswatcher.Trace.Dns.{Env, Query, Reply, response, failure}
use dnswatcher.Trace.State.{ServerCandidate, Engine, TraceState}
use dnswatcher.Trace.Exchange.{from_udp, exchange}
use dnswatcher.Trace.Engine.Steps.{Step, ask, log, Reach, here, next}

-- No key stands twice.
abbrev pub IsDistinct : List Bytes → Type 0
IsDistinct [] = Unit
IsDistinct (key ∷ keys) = (contains key keys ≡ false) × IsDistinct keys

-- Each upstream query is one visited key, no key is visited twice, the queries stay within the
-- budget, and each has put at most two questions on the wire (UDP, then TCP).
pub record IsBudgeted (e : Engine) (state : TraceState) : Type 0 where
  pub distinct : IsDistinct state.visited
  pub counted : length state.visited ≡ state.upstream_queries
  pub within : state.upstream_queries ≤ e.max_upstream_queries
  pub sent_le : length state.history ≤ 2 * state.upstream_queries

from_udp-history_le :
    (env : Env) (e : Engine) (history : List Query) (tcp : Query) (got : Reply)
    → length (from_udp env e history tcp got).1 ≤ suc (length history)
unfolding from_udp
from_udp-history_le env e history tcp (response resp latency) = ground arith
from_udp-history_le env e history tcp (failure err) = omega arith

exchange-history_le :
    (env : Env) (e : Engine) (history : List Query) (endpoint qname qtype : Bytes)
    → length (exchange env e history endpoint qname qtype).1 ≤ suc (suc (length history))
unfolding exchange
exchange-history_le env e history endpoint qname qtype = from_udp-history_le env e _ _ _

module _ (env : Env) (e : Engine) (Known : ServerCandidate → Type 0) where
  -- An invariant of the steps holds wherever they lead.
  pub Reach-invariant :
      (P : TraceState → Type 0)
      → ((s t : TraceState) → Step env e Known s t → P s → P t)
      → {s t : TraceState} → Reach env e Known s t
      → P s
      → P t
  Reach-invariant P keep here h = h
  Reach-invariant P keep (next {s = u} {t = v} r step) h =
      keep u v step (Reach-invariant P keep r h)

  pub Step-IsBudgeted : (s t : TraceState) → Step env e Known s t → IsBudgeted e s → IsBudgeted e t
  Step-IsBudgeted s t (ask state candidate at known allowed room fresh) h = record {
    distinct = (fresh, h.distinct);
    counted = omega (arith, h.counted);
    within = omega arith;
    sent_le = omega (
      arith,
      h.sent_le,
      exchange-history_le env e state.history candidate.endpoint at.qname at.qtype,
    );
  }
  Step-IsBudgeted s t (log state hop ok) h = record {
    distinct = h.distinct;
    counted = h.counted;
    within = h.within;
    sent_le = h.sent_le;
  }
