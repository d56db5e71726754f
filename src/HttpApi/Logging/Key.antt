-- ===== src/HttpApi/Logging/Key.antt =====
-- The form in which the log of backend/internal/httpapi/server.go may name a client.
use dnswatcher.Prelude.{ℕ, ◌≡◌, refl, List, take, Bytes}
use dnswatcher.Strings.Hex.{hex}
use dnswatcher.Contracts.{TraceRequest}
use dnswatcher.Net.{Prefix}
use dnswatcher.HttpApi.ClientId.{ClientIdentity, resolve_client_identity}
use dnswatcher.HttpApi.Limiters.{Settings}
use dnswatcher.HttpApi.Server.{HttpRequest, ServerLibs, TracerReply}
use dnswatcher.HttpApi.Logging.{hash_client_key, client_log_key_of}

module _ (libs : ServerLibs) (sha256 : Bytes → Bytes) (trusted : List Prefix) where
  abbrev pub client_of : HttpRequest → ClientIdentity
  client_of req = resolve_client_identity libs.unicode libs.texts req.remote_addr req.header trusted

  -- The first six bytes of the SHA-256 sum of the client's key, in hexadecimal.
  abbrev pub IsKeyHash : HttpRequest → Bytes → Type 0
  IsKeyHash req text = text ≡ hex (take 6 (sha256 (client_of req).address))

  pub client_log_key_of-IsKeyHash :
      (cfg : Settings libs.rate) (now later duration : ℕ) (tracer : TraceRequest → TracerReply)
      (req : HttpRequest)
      → IsKeyHash req (client_log_key_of libs sha256 cfg trusted now later duration tracer req)
  unfolding hash_client_key
  client_log_key_of-IsKeyHash cfg now later duration tracer req = refl
