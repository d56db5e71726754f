-- ===== src/HttpApi/Service.antt =====
-- The server of backend/internal/httpapi with the engine of backend/internal/trace as its tracer,
-- as backend/cmd/dnswatcher-api starts it.
use dnswatcher.Prelude.{◌≡◌, ◌⊎◌, Option, none, some, Bool, [], Bytes}
use dnswatcher.Contracts.{TraceRequest, TraceResult}
use dnswatcher.Policy.Domain.{PolicyError}
use dnswatcher.Trace.Dns.{Env}
use dnswatcher.Trace.State.{Engine}
use dnswatcher.Trace.Run.{Readings, Traced, done, refused, trace}
use dnswatcher.Trace.Run.Promises.{IsReport, Accounts}
use dnswatcher.HttpApi.Server.{
  Response, TracerReply, traced_ok, policy_failed, other_failed, write_reply,
}

-- `Trace` as the server's tracer; a trace that does not return would be no reply.
abbrev pub reply_of : Option Traced → TracerReply
reply_of none = other_failed []
reply_of (some (done result)) = traced_ok result
reply_of (some (refused err)) = policy_failed err

module _ (env : Env) (e : Engine) (is_ip_literal : Bytes → Bool) (now : Readings) where
  unfoldable pub engine_tracer : TraceRequest → TracerReply
  engine_tracer req = reply_of (trace env e is_ip_literal now req)

  abbrev pub IsAnswer : TraceRequest → Response → Type 0
  IsAnswer req response =
      ((result : TraceResult) × (response ≡ write_reply (traced_ok result))
        × (response.status ≡ 200)
        × IsReport env e is_ip_literal req result)
      ⊎ ((err : PolicyError) × (response ≡ write_reply (policy_failed err))
          × (response.status ≡ 400)
          × Accounts env e is_ip_literal req (refused err))
