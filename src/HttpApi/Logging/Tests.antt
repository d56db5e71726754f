-- ===== src/HttpApi/Logging/Tests.antt =====
-- A run of the log with the engine as the tracer, and the theorems on it at that run.
use dnswatcher.Prelude.{◌≡◌, refl, [], ◌∷◌, Bytes, codes, pos, map}
use dnswatcher.Contracts.{TraceRequest, TraceResult}
use dnswatcher.HttpApi.Server.{TracerReply, traced_ok, create_trace}
use dnswatcher.HttpApi.Service.{engine_tracer}
use dnswatcher.HttpApi.Logging.{hash_client_key, admitted, logged}
use dnswatcher.Strings.Hex.{hex}
use dnswatcher.HttpApi.Server.Answers.{answer_status}
use dnswatcher.Contracts.Kinds.{Status, OutcomeKind}
use dnswatcher.HttpApi.Logging.Complete.{IsLogged, create_trace-IsLogged}
use dnswatcher.HttpApi.Logging.Redacted.{AreRedacted, logged-AreRedacted}
use dnswatcher.HttpApi.Server.Tests.{libs, settings, post_from, fresh, server}
use dnswatcher.Trace.Run.Tests.{lab_env, lab_engine, no_literals, readings}

-- A stand-in for a hash that keeps one byte.
abbrev first_byte : Bytes → Bytes
first_byte [] = []
first_byte (c ∷ text) = c ∷ []

logged-AreRedacted_example :
    AreRedacted
      (lab_env [])
      lab_engine
      no_literals
      readings
      libs
      first_byte
      settings
      []
      0
      0
      0
      (post_from (codes "ab"))
      (logged libs first_byte settings [] 0 0 0
        (engine_tracer (lab_env []) lab_engine no_literals readings)
        (post_from (codes "ab"))
        fresh)
logged-AreRedacted_example =
    logged-AreRedacted (lab_env []) lab_engine no_literals readings libs first_byte settings [] 0 0
      0 (post_from (codes "ab")) fresh

abbrev report : TraceResult
report = record {
  trace_id = codes "00";
  input_domain = codes "a.com";
  normalized_domain = codes "a.com";
  qtype = codes "A";
  started_at = [];
  completed_at = [];
  total_duration_ms = 7;
  status = Status.success;
  final_outcome = record {
    kind = OutcomeKind.success;
    rcode = "NOERROR";
    message = "";
    terminal_hop_index = pos 0;
  };
  summary = record {
    headline = "";
    detail = [];
    total_hops = 0;
    cname_count = 0;
    answer_count = 0;
  };
  truth_notes = [];
  hops = [];
}

abbrev reporting : TraceRequest → TracerReply
reporting req = traced_ok report

answers_ok :
    answer_status (create_trace libs settings [] 0 0 reporting (post_from (codes "ab")) fresh).0
    ≡ 200
unfolding server
answers_ok = refl

-- One event, as the client sent no forwarding headers.
logged_tests :
    map
      (λ event. event.message)
      (logged libs first_byte settings [] 0 0 0 reporting (post_from (codes "ab")) fresh)
    ≡ "trace_completed" ∷ []
unfolding server logged admitted hash_client_key hex
logged_tests = refl

create_trace-IsLogged_example :
    IsLogged libs first_byte settings [] 0 0 0 reporting (post_from (codes "ab")) fresh
create_trace-IsLogged_example =
    create_trace-IsLogged libs first_byte settings [] 0 0 0 reporting (post_from (codes "ab")) fresh
      answers_ok
