-- ===== src/HttpApi/Routes.antt =====
-- backend/internal/httpapi/server.go: Handler, healthz, writeJSON and withJSONHeaders, for a request
-- that runs alone.
pub mod Untouched
pub mod Tests
use dnswatcher.Prelude.{
  ℕ, Bool, true, false, not, ◌&&◌, List, [], ◌∷◌, ◌++◌, Option, none, some, if◌then◌else◌, is_nil,
  Bytes, String, codes, equal,
}
use dnswatcher.Contracts.{TraceRequest}
use dnswatcher.Net.{Prefix}
use dnswatcher.Trace.Records.{decimal}
use dnswatcher.HttpApi.Limiters.{Settings, ServerState}
use dnswatcher.HttpApi.Server.{
  HttpRequest, ServerLibs, TracerReply, Payload, Response, Phase, answered, limited, allowed,
  running, create_trace,
}

-- The JSON objects that are written, or what net/http writes itself.
pub data HttpBody : Type 0 where
  health : HttpBody
  json_of : Payload → HttpBody
  raw : Bytes → HttpBody

-- Headers in the order in which they are set.
pub record HttpReply : Type 0 where
  pub status : ℕ
  pub headers : List (String × Bytes)
  pub body : HttpBody

-- Of net/http: whether a ServeMux sends a request to the clean form of its path, the reply by which
-- it does, http.NotFound, and a file server, for a directory and a path.
pub record WebLib : Type 0 where
  pub is_redirected : Bytes → Bytes → Bool
  pub redirect : Bytes → HttpReply
  pub not_found : HttpReply
  pub file_server : Bytes → Bytes → HttpReply

abbrev pub write_json : List (String × Bytes) → ℕ → HttpBody → HttpReply
write_json headers status body = record {
  status = status;
  headers = headers ++ ("Content-Type", codes "application/json; charset=utf-8") ∷ [];
  body = body;
}

unfoldable pub healthz : HttpReply
healthz = write_json [] 200 HttpBody.health

abbrev pub retry_header : Option ℕ → List (String × Bytes)
retry_header none = []
retry_header (some seconds) = ("Retry-After", decimal seconds) ∷ []

abbrev pub reply_to : Response → HttpReply
reply_to response =
    write_json (retry_header response.retry_after) response.status
      (HttpBody.json_of response.payload)

-- The header stands before those of the inner handler.
abbrev pub with_json_headers : HttpReply → HttpReply
with_json_headers reply = record reply {
  headers = ("X-Content-Type-Options", codes "nosniff") ∷ reply.headers;
}

pub data Route : Type 0 where
  redirected health_check traces files missing : Route

-- The patterns of the ServeMux.
unfoldable pub route_of : WebLib → Bytes → Bytes → Bytes → Route
route_of web static_dir method path =
    if web.is_redirected method path
    then Route.redirected
    else if equal path (codes "/healthz")
    then Route.health_check
    else if equal path (codes "/api/v1/traces")
    then Route.traces
    else if not (is_nil static_dir)
    then Route.files
    else Route.missing

module _ (web : WebLib) (libs : ServerLibs) (cfg : Settings libs.rate) (trusted : List Prefix)
    (static_dir : Bytes) (now later : ℕ) (tracer : TraceRequest → TracerReply) where
  -- `create_trace` ends with an answer, so the other phases do not occur.
  abbrev pub answer_of : Phase × ServerState libs.rate → HttpReply × ServerState libs.rate
  answer_of (answered response, state) = (reply_to response, state)
  answer_of (_, state) = (web.not_found, state)

  unfoldable pub serve_route :
      Route → Bytes → HttpRequest → ServerState libs.rate → HttpReply × ServerState libs.rate
  serve_route Route.redirected path req state = (web.redirect path, state)
  serve_route Route.health_check path req state = (healthz, state)
  serve_route Route.traces path req state =
      answer_of (create_trace libs cfg trusted now later tracer req state)
  serve_route Route.files path req state = (web.file_server static_dir path, state)
  serve_route Route.missing path req state = (web.not_found, state)

  -- The handler that `Handler` returns.
  unfoldable pub serve :
      Bytes → HttpRequest → ServerState libs.rate → HttpReply × ServerState libs.rate
  serve path req state =
      let served = serve_route (route_of web static_dir req.method path) path req state in
      (with_json_headers served.0, served.1)
