-- ===== src/Trace/Run/Examples.antt =====
-- The theorems on answers, records, keys and egress at inputs of the lab.
use dnswatcher.Prelude.{
  ℕ, pos, sym, Bool, ◌↔◌, ◌≡◌, refl, true, false, List, [], ◌∷◌, map, none, some, if◌then◌else◌,
  arith, codes, equal, Memᴰ, All, Returns,
}
use dnswatcher.Contracts.Kinds.{HopPurpose, ResponseKind, OutcomeKind}
use dnswatcher.Net.{v4, Texts}
use dnswatcher.Trace.Dns.{Rr, Msg, Reply, Env}
use dnswatcher.Trace.Records.{fqdn, glue_addrs, ns_targets, rrsets_from_section}
use dnswatcher.Trace.Records.Grouping.{set_of, first_records, rrsets_from_section-first_records}
use dnswatcher.Trace.Records.Sets.{HasPlainTypes, IsTyped, IsSetFor, rrsets_from_section-IsSetFor}
use dnswatcher.Trace.State.{Cursor}
use dnswatcher.Trace.Support.Keys.{AreSame, visited_key-AreSame}
use dnswatcher.Trace.Referral.{glue_pairs}
use dnswatcher.Trace.Referral.Glue.{Gives, address_record}
use dnswatcher.Trace.Referral.Candidates.{server_record, glue_pairs-Gives}
use dnswatcher.Trace.Run.{Config, new_engine, traced, trace}
use dnswatcher.Trace.Run.Answers.{HasTypedReplies, AnswersQuestion, traced-AnswersQuestion}
use dnswatcher.Trace.Run.Egress.{IsPublicQuery, traced-IsPublicQuery}
use dnswatcher.Trace.Run.Tests.{
  lab_env, lab_engine, no_literals, readings, glue, of_type, address, referral as referred, engine,
  digest, ask_for,
}

answer_injective :
    {left right : Msg} {m n : ℕ}
    → Reply.response left m ≡ Reply.response right n
    → left.answer ≡ right.answer
answer_injective e = cc

plain_types : HasPlainTypes (lab_env glue)
plain_types type = ground arith

-- The server of "www.com." answers with an alias first.
abbrev alias : Reply
alias =
    Reply.response
      (record {
        rcode = 0;
        authoritative = true;
        truncated = false;
        answer = Rr.cname (of_type 5 "www.com.") (codes "web.com.") ∷ [];
        ns = [];
        extra = [];
      })
      3_000_000

abbrev reply_by : Bool → Bool → Reply
reply_by at_root for_alias =
    if at_root then referred glue else if for_alias then alias else address "web.com."

abbrev alias_env : Env
alias_env = record (lab_env glue) {
  network = λ history query.
      reply_by (equal query.endpoint (codes "1.1.1.1:53")) (equal query.qname (codes "www.com."));
}

alias_plain_types : HasPlainTypes alias_env
alias_plain_types type = ground arith

reply_by-IsTyped :
    (at_root for_alias : Bool) (message : Msg) (latency : ℕ)
    → reply_by at_root for_alias ≡ Reply.response message latency
    → All (IsTyped alias_env) message.answer
reply_by-IsTyped true for_alias message latency e = rw (sym (answer_injective e)) tt
reply_by-IsTyped false true message latency e = rw (sym (answer_injective e)) (refl, tt)
reply_by-IsTyped false false message latency e = rw (sym (answer_injective e)) (refl, tt)

alias_typed : HasTypedReplies alias_env
alias_typed history query message latency e = reply_by-IsTyped _ _ message latency e

followed_alias :
    digest (trace alias_env lab_engine no_literals readings (ask_for "www.com"))
    ≡ some (
      (0, ResponseKind.referral)
          ∷ (1, ResponseKind.cname)
          ∷ (2, ResponseKind.referral)
          ∷ (3, ResponseKind.answer)
          ∷ [],
      OutcomeKind.success,
      pos 3,
    )
unfolding engine
followed_alias = refl

traced-AnswersQuestion_example :
    Returns
      (λ r.
        r.0.kind ≡ OutcomeKind.success
        → AnswersQuestion alias_env alias_plain_types alias_typed
            (fqdn (codes "www.com"))
            (codes "A")
            r.1.hops)
      (traced alias_env lab_engine no_literals readings
        (codes "www.com")
        (codes "www.com")
        (codes "A"))
traced-AnswersQuestion_example =
    traced-AnswersQuestion alias_env alias_plain_types alias_typed lab_engine no_literals readings
      (codes "www.com") (codes "www.com") (codes "A")

-- Two addresses of one name, and one of another between them.
abbrev three_records : List Rr
three_records =
    Rr.a (of_type 1 "www.com.") (codes "9.9.9.9")
    ∷ Rr.a (of_type 1 "ns.net.") (codes "8.8.8.8")
    ∷ Rr.a (of_type 1 "www.com.") (codes "9.9.9.8")
    ∷ []

rrsets_from_section-first_records_example :
    rrsets_from_section (lab_env glue) "answer" three_records
    ≡ map
        (set_of (lab_env glue) "answer" three_records)
        (first_records (lab_env glue) [] three_records)
rrsets_from_section-first_records_example =
    rrsets_from_section-first_records (lab_env glue) "answer" three_records

rrsets_from_section-IsSetFor_example :
    IsSetFor
      (lab_env glue)
      (Rr.a (of_type 1 "ns.net.") (codes "8.8.8.8"))
      (rrsets_from_section (lab_env glue) "answer" three_records)
rrsets_from_section-IsSetFor_example =
    rrsets_from_section-IsSetFor (lab_env glue) "answer" three_records plain_types
      (Memᴰ.tail (Memᴰ.head refl))

abbrev question_at : Cursor
question_at = record {
  candidates = [];
  qname = codes "a|b.";
  qtype = codes "A";
  purpose = HopPurpose.delegation;
  zone = codes ".";
}

visited_key-AreSame_example : AreSame (codes "9.9.9.9") (codes "9.9.9.9") question_at question_at
visited_key-AreSame_example =
    visited_key-AreSame (codes "9.9.9.9") (codes "9.9.9.9") question_at question_at (omega arith)
      (omega arith) (omega arith) (omega arith) refl

abbrev reader : Texts
reader = record {
  parse_addr = λ s. if equal s (codes "198.41.0.4") then some (v4 0xc6290004) else none;
  parse_prefix = λ _. none;
  addr_string = λ _. [];
  split_host = λ _. none;
}

abbrev empty_config : Config
empty_config = record {
  per_hop_timeout = 0;
  overall_timeout = 0;
  max_depth = 0;
  max_upstream_queries = 0;
  roots = [];
  destination_policy = none;
  endpoint_resolver = none;
}

traced-IsPublicQuery_example :
    Returns
      (λ r. All (IsPublicQuery reader) r.1.history)
      (traced
        (lab_env glue)
        (new_engine reader empty_config)
        no_literals
        readings
        (codes "www.com")
        (codes "www.com")
        (codes "A"))
traced-IsPublicQuery_example =
    traced-IsPublicQuery (lab_env glue) reader empty_config no_literals readings refl refl refl
      (codes "www.com") (codes "www.com") (codes "A")

abbrev referral : Msg
referral = record {
  rcode = 0;
  authoritative = false;
  truncated = false;
  answer = [];
  ns = Rr.ns (of_type 2 "com.") (codes "ns.net.") ∷ [];
  extra = three_records;
}

glue_pairs-Gives_example :
    Memᴰ
      (codes "ns.net.", codes "8.8.8.8")
      (glue_pairs lab_engine (glue_addrs referral.extra) (ns_targets referral.ns))
    ↔ (Gives server_record (codes "ns.net.") referral.ns
        × Gives address_record (codes "ns.net.", codes "8.8.8.8") referral.extra
        × (lab_engine.allow (codes "8.8.8.8") ≡ true))
glue_pairs-Gives_example = glue_pairs-Gives lab_engine referral (codes "ns.net.") (codes "8.8.8.8")
