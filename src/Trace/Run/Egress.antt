-- ===== src/Trace/Run/Egress.antt =====
-- Where the queries of an engine with the default policy go.
use dnswatcher.Prelude.{
  ◌≡◌, refl, ◌∙◌, Bool, true, false, inl, inr, [], none, some, Bytes, codes, All, All-mem, All-map,
  All-imp, Returns, Returns-map,
}
use dnswatcher.Net.{Addr, Texts}
use dnswatcher.Net.HostPort.{join_host_port}
use dnswatcher.Policy.Destination.{allow_public}
use dnswatcher.Policy.Destination.Ranges.{IsPublic, allow_public-IsPublic}
use dnswatcher.Trace.Dns.{Env, Query}
use dnswatcher.Trace.State.{ServerCandidate}
use dnswatcher.Trace.Engine.Egress.{IsKnown, IsAllowed}
use dnswatcher.Trace.Run.{
  Config, Readings, default_root_candidates, with_endpoint, new_engine, traced,
}
use dnswatcher.Trace.Run.Promises.{traced-IsAllowed}

-- The address and the port of an endpoint, or of a root that has an endpoint of its own.
abbrev HasEndpoint : ServerCandidate → Type 0
HasEndpoint candidate = candidate.endpoint ≡ join_host_port candidate.ip (codes "53")

-- A query to port 53 of an address that is public, without a wish for recursion.
pub record IsPublicQuery (texts : Texts) (query : Query) : Type 0 where
  pub ip : Bytes
  pub addr : Addr
  pub reads : texts.parse_addr ip ≡ some addr
  pub public_addr : IsPublic addr
  pub endpoint : query.endpoint ≡ join_host_port ip (codes "53")
  pub iterative : query.recursion_desired ≡ false

default_roots-HasEndpoint :
    (resolve : Bytes → Bytes)
    → All (λ root. HasEndpoint (with_endpoint resolve root)) default_root_candidates
unfolding default_root_candidates with_endpoint join_host_port
default_roots-HasEndpoint resolve = (
  refl,
  (
    refl,
    (refl, (refl, (refl, (refl, (refl, (refl, (refl, (refl, (refl, (refl, (refl, tt))))))))))),
  ),
)

module _ (env : Env) (texts : Texts) (cfg : Config) (is_ip_literal : Bytes → Bool) (now : Readings)
    (roots : cfg.roots ≡ []) (policy : cfg.destination_policy ≡ none)
    (resolver : cfg.endpoint_resolver ≡ none) where
  IsKnown-HasEndpoint :
      (candidate : ServerCandidate)
      → IsKnown (new_engine texts cfg) candidate
      → HasEndpoint candidate
  unfolding new_engine
  IsKnown-HasEndpoint candidate (inl e) = rw resolver at e
  IsKnown-HasEndpoint candidate (inr m) =
      All-mem HasEndpoint _
        (All-map HasEndpoint (with_endpoint _) default_root_candidates
          (default_roots-HasEndpoint _))
        (rw roots at m)

  IsAllowed-IsPublicQuery :
      (query : Query) → IsAllowed (new_engine texts cfg) query → IsPublicQuery texts query
  IsAllowed-IsPublicQuery query h =
      let allowed : allow_public texts h.candidate.ip ≡ true =
        unfold new_engine in rw policy at h.allowed in
      let (addr, reads, public) = (allow_public-IsPublic texts h.candidate.ip).0 allowed in
      record {
        ip = h.candidate.ip;
        addr = addr;
        reads = reads;
        public_addr = public;
        endpoint = h.endpoint ∙ IsKnown-HasEndpoint h.candidate h.known;
        iterative = h.iterative;
      }

  -- With the default policy, resolver and roots, as the service runs it, a trace returns and sends
  -- its queries to port 53 of addresses only that are public in the sense of IsPublic.
  pub traced-IsPublicQuery :
      (input domain qtype : Bytes)
      → Returns
          (λ r. All (IsPublicQuery texts) r.1.history)
          (traced env (new_engine texts cfg) is_ip_literal now input domain qtype)
  traced-IsPublicQuery input domain qtype =
      Returns-map _ _ (traced env (new_engine texts cfg) is_ip_literal now input domain qtype)
        (λ r h.
          All-imp (IsAllowed (new_engine texts cfg)) (IsPublicQuery texts) IsAllowed-IsPublicQuery
            r.1.history h)
        (traced-IsAllowed env (new_engine texts cfg) is_ip_literal now input domain qtype)
