-- ===== src/HttpApi/Server/Tests.antt =====
-- Runs of the server with a limiter that counts down, and its theorems at an input.
use dnswatcher.Prelude.{
  ℕ, ℤ, pos, negsuc, ◌+◌, ◌*◌, ◌-◌, ◌≤◌, arith, All, List, ◌≡◌, ◌≢◌, refl, ◌↔◌, true, false, [],
  ◌∷◌, none, some, if◌then◌else◌, ◌==◌, Bytes, codes, equal, equal_iff,
}
use dnswatcher.Strings.{
  Unicode, starts_with, trim_space, is_ascii, trim_left, trim_right, is_space, equal_fold, to_lower,
  lower_byte,
}
use dnswatcher.Contracts.{TraceRequest}
use dnswatcher.Policy.Domain.{PolicyError}
use dnswatcher.Net.{unmap}
use dnswatcher.HttpApi.ClientId.{
  resolve_client_identity, has_forwarded_headers, peer_identity, peer_of, parse_ip_hop,
  parse_trimmed, parse_bracketed, parse_canonical_addr, cut_bracket, canonical_addr,
}
use dnswatcher.HttpApi.Limiters.{
  new_state, Settings, ServerState, LimiterEntry, find_entry, touch_entry, cleanup_limiters,
  cleaned, found_or_new, limiter_for, allow_at, ask_limiter,
}
use dnswatcher.HttpApi.Limiters.Separate.{limiter_at}
use dnswatcher.HttpApi.Limiters.Lasting.{after_calls, limiter_for-same}
use dnswatcher.HttpApi.Server.{
  minute, HttpRequest, ServerLibs, TracerReply, policy_failed, Phase, period_of, new_settings,
  arrive, ask, acquire, finish, advance, answer_decoded, write_reply, create_trace,
}
use dnswatcher.HttpApi.Server.Answers.{
  answer_status, IsServed, create_trace-IsServed, create_trace-in_flight,
}
use dnswatcher.HttpApi.Server.Concurrency.{
  System, Reachable, start, next, arrives, IsBounded, Reachable-IsBounded,
}
use dnswatcher.HttpApi.Limiters.Spec.{no_clients, admit_all}
use dnswatcher.HttpApi.Limiters.Refines.{admitted_all, admitted_all-admit_all}
use dnswatcher.HttpApi.Server.Progress.{Settled, Reachable-Settled}
use dnswatcher.HttpApi.Server.Isolation.{Reachable-ask_limiter}
use dnswatcher.Trace.Run.Tests.{ask_for}

abbrev pub tables : Unicode
tables = record { lower = λ s. s; upper = λ s. s; trim = λ s. s; valid = λ _. false; fold = equal }

abbrev pub to_nat : ℤ → ℕ
to_nat (pos n) = n
to_nat (negsuc n) = 0

-- No text is an address, so a client's key is its remote address.
abbrev pub libs : ServerLibs
libs = record {
  rate = record {
    Rate = ℤ;
    Limiter = ℕ;
    every = λ period. period;
    new_limiter = λ period burst. to_nat burst;
    allow = λ now tokens. if tokens == 0 then (false, 0) else (true, tokens - 1);
  };
  unicode = tables;
  texts = record {
    parse_addr = λ _. none;
    parse_prefix = λ _. none;
    addr_string = λ _. [];
    split_host = λ _. none;
  };
  decode = λ limit body. if equal body (codes "{}") then some (ask_for "www.com", true) else none;
}

abbrev pub settings : Settings libs.rate
settings = record {
  body_limit = pos 2048;
  limiter_rate = pos 3_000_000_000;
  limiter_burst = pos 1;
  limiter_ttl = 15 * minute;
  limiter_cleanup_interval = 5 * minute;
  max_concurrent = 1;
}

abbrev pub post_from : Bytes → HttpRequest
post_from remote = record {
  remote_addr = remote;
  header = record { forwarded = []; x_forwarded_for = [] };
  method = codes "POST";
  content_type = codes "application/json";
  body = codes "{}";
}

abbrev pub fresh : ServerState libs.rate
fresh = new_state libs.rate 0

abbrev pub run :
    (TraceRequest → TracerReply)
    → HttpRequest
    → ServerState libs.rate
    → Phase × ServerState libs.rate
run = create_trace libs settings [] 0 0

abbrev pub refusing : TraceRequest → TracerReply
refusing req = policy_failed PolicyError.invalid_domain

-- What a run of the server computes with.
unfoldable pub server : Unit {0}
unfolding equal starts_with trim_space is_ascii trim_left trim_right is_space equal_fold to_lower
    lower_byte unmap resolve_client_identity has_forwarded_headers peer_identity peer_of
    parse_ip_hop parse_trimmed parse_bracketed parse_canonical_addr cut_bracket canonical_addr
    find_entry touch_entry cleanup_limiters cleaned found_or_new limiter_for allow_at ask_limiter
    period_of new_settings new_state arrive ask acquire finish advance answer_decoded write_reply
    create_trace
server = tt

-- One trace at a time and the other settings by default; a negative number of traces.
new_settings_tests :
    (new_settings libs.rate (record {
      body_limit_bytes = pos 0;
      rate_limit_per_minute = pos 0;
      burst = pos 1;
      max_concurrent_traces = pos 1;
    })
      ≡ some settings)
    × (new_settings libs.rate (record {
      body_limit_bytes = pos 0;
      rate_limit_per_minute = pos 0;
      burst = pos 1;
      max_concurrent_traces = negsuc 0;
    })
        ≡ none)
unfolding server
new_settings_tests = (refl, refl)

-- A refused trace, and a second request of the same client, which is beyond the burst.
create_trace_tests :
    (answer_status (run refusing (post_from (codes "a")) fresh).0 ≡ 400)
    × (answer_status
          (run refusing (post_from (codes "a")) (run refusing (post_from (codes "a")) fresh).1).0
        ≡ 429)
    × (answer_status
          (run refusing (post_from (codes "b")) (run refusing (post_from (codes "a")) fresh).1).0
        ≡ 400)
unfolding server
create_trace_tests = (refl, refl, refl)

create_trace-IsServed_example :
    (answer_status (run refusing (post_from (codes "a")) fresh).0 ≡ 200)
    ↔ IsServed libs settings [] 0 0 refusing (post_from (codes "a")) fresh
create_trace-IsServed_example =
    create_trace-IsServed libs settings [] 0 0 refusing (post_from (codes "a")) fresh

create_trace-in_flight_example :
    (run refusing (post_from (codes "a")) fresh).1.in_flight ≡ fresh.in_flight
create_trace-in_flight_example =
    create_trace-in_flight libs settings [] 0 0 refusing (post_from (codes "a")) fresh

abbrev after : Bytes → ServerState libs.rate → ServerState libs.rate
after remote state = (arrive libs settings [] 0 (post_from remote) state).1

abbrev phase_of : Bytes → ServerState libs.rate → Phase
phase_of remote state = (arrive libs settings [] 0 (post_from remote) state).0

-- Two clients behind `limiterFor`.
abbrev two_clients : System libs settings []
two_clients = (
  after (codes "b") (after (codes "a") fresh),
  (post_from (codes "b"), phase_of (codes "b") (after (codes "a") fresh))
      ∷ (post_from (codes "a"), phase_of (codes "a") fresh)
      ∷ [],
)

two_clients-Reachable : Reachable libs settings [] two_clients
two_clients-Reachable = next (next (start 0) (arrives 0 (post_from (codes "a")) fresh [])) (
    arrives 0 (post_from (codes "b")) (after (codes "a") fresh)
      ((post_from (codes "a"), phase_of (codes "a") fresh) ∷ []))

Reachable-IsBounded_example : IsBounded libs settings [] two_clients
Reachable-IsBounded_example = Reachable-IsBounded libs settings [] two_clients two_clients-Reachable

abbrev entry_at : ℕ → LimiterEntry
entry_at index = record { limiter = index; last_seen = 0 }

found_a : find_entry (codes "a") two_clients.0.limiters ≡ some (entry_at 0)
unfolding server
found_a = refl

found_b : find_entry (codes "b") two_clients.0.limiters ≡ some (entry_at 1)
unfolding server
found_b = refl

a_ne_b : codes "a" ≢ codes "b"
unfolding server
a_ne_b e = let same : false ≡ true = (equal_iff (codes "a") (codes "b")).1 e in cc

Reachable-ask_limiter_example :
    limiter_at libs.rate 1 (ask_limiter libs.rate 0 0 two_clients.0).1.heap
    ≡ limiter_at libs.rate 1 two_clients.0.heap
Reachable-ask_limiter_example =
    Reachable-ask_limiter libs settings [] two_clients two_clients-Reachable 0 (codes "a")
      (codes "b") (entry_at 0) (entry_at 1) a_ne_b found_a found_b

abbrev calls : List (ℕ × Bytes)
calls = (6, codes "b") ∷ (7, codes "a") ∷ []

calls_in_time : All (λ call. (5 ≤ call.0) × (call.0 - 5 ≤ settings.limiter_ttl)) calls
unfolding server
calls_in_time = ((omega arith, omega arith), ((omega arith, omega arith), tt))

call_in_time : 9 - 5 ≤ settings.limiter_ttl
unfolding server
call_in_time = omega arith

limiter_for-same_example :
    (limiter_for libs.rate settings 9 (codes "a") (
      after_calls libs.rate settings calls
        (limiter_for libs.rate settings 5 (codes "a") fresh).1)).0
    ≡ (limiter_for libs.rate settings 5 (codes "a") fresh).0
limiter_for-same_example =
    limiter_for-same libs.rate settings (codes "a") 5 9 calls fresh calls_in_time call_in_time

Reachable-Settled_example : Settled libs settings [] 0 refusing two_clients
Reachable-Settled_example =
    Reachable-Settled libs settings [] 0 refusing two_clients two_clients-Reachable

-- Two clients, the second request of one of them soon and the third after it was forgotten.
abbrev asked : List (ℕ × ℕ × Bytes)
asked =
    (5, 6, codes "a")
    ∷ (6, 6, codes "b")
    ∷ (7, 8, codes "a")
    ∷ (8 + 16 * minute, 9 + 16 * minute, codes "a")
    ∷ []

admitted_all_tests :
    admitted_all libs.rate settings asked (new_state libs.rate 0) ≡ true ∷ true ∷ false ∷ true ∷ []
unfolding server
admitted_all_tests = refl

admitted_all-admit_all_example :
    admitted_all libs.rate settings asked (new_state libs.rate 0)
    ≡ admit_all libs.rate settings asked (no_clients libs.rate 0)
admitted_all-admit_all_example = admitted_all-admit_all libs.rate settings 0 asked
