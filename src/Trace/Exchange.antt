-- ===== src/Trace/Exchange.antt =====
-- `exchange` of backend/internal/trace/engine.go: one question over UDP, and again over TCP if
-- the answer is truncated.
use dnswatcher.Prelude.{ℕ, ◌+◌, Bool, true, false, List, ◌∷◌, if◌then◌else◌, Bytes}
use dnswatcher.Contracts.Kinds.{Transport}
use dnswatcher.Trace.Dns.{Msg, Query, NetError, Reply, response, failure, Env}
use dnswatcher.Trace.State.{Engine}

-- The results: response, latency, transport and the truncation of the first answer; or the error.
pub data Exchange : Type 0 where
  answered : Msg → ℕ → Transport → Bool → Exchange
  failed : NetError → Exchange

unfoldable pub from_tcp : ℕ → Reply → Exchange
from_tcp latency (response resp elapsed) = answered resp (latency + elapsed) Transport.tcp true
from_tcp latency (failure err) = failed err

module _ (env : Env) (e : Engine) where
  -- `msg.SetQuestion` and `RecursionDesired = false`, sent by a client of the given transport.
  unfoldable pub question : Transport → Bytes → Bytes → Bytes → Query
  question net endpoint qname qtype = record {
    net = net;
    timeout = e.per_hop_timeout;
    endpoint = endpoint;
    qname = qname;
    qtype = env.dns.string_to_type qtype;
    recursion_desired = false;
  }

  abbrev pub send_tcp : List Query → Query → ℕ → Exchange × List Query
  send_tcp history query latency = (from_tcp latency (env.network history query), query ∷ history)

  unfoldable pub from_udp : List Query → Query → Reply → Exchange × List Query
  from_udp history tcp (response resp latency) =
      if resp.truncated
      then send_tcp history tcp latency
      else (answered resp latency Transport.udp false, history)
  from_udp history tcp (failure err) = (failed err, history)

  unfoldable pub exchange : List Query → Bytes → Bytes → Bytes → Exchange × List Query
  exchange history endpoint qname qtype =
      let udp = question Transport.udp endpoint qname qtype in
      let tcp = question Transport.tcp endpoint qname qtype in
      from_udp (udp ∷ history) tcp (env.network history udp)
