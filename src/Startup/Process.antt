-- ===== src/Startup/Process.antt =====
-- backend/cmd/dnswatcher-api/main.go: main, up to the call that serves.
use dnswatcher.Prelude.{
  List, [], Option, some, ◌>>=◌, if◌then◌else◌, is_nil, ◌^◌, Bool, Bytes, codes, String, ℤ, pos,
}
use dnswatcher.Strings.{Unicode}
use dnswatcher.Contracts.{TraceRequest}
use dnswatcher.Net.{Prefix, Texts}
use dnswatcher.Net.HostPort.{join_host_port}
use dnswatcher.HttpApi.Limiters.{RateLib, Settings}
use dnswatcher.HttpApi.Server.{ServerLibs, new_settings}
use dnswatcher.HttpApi.Timeouts.{TimeoutConfig, seconds, stdlib_server}
use dnswatcher.Startup.{trusted_proxies}
use dnswatcher.Startup.Env.{env_string, env_int, env_int64, env_duration}

-- What the process stands on: time.ParseDuration, os.Getenv, and whether os.Stat finds a path.
pub record Host : Type 1 where
  pub rate : RateLib
  pub unicode : Unicode
  pub texts : Texts
  pub parse_duration : Bytes → Option ℤ
  pub getenv : String → Bytes
  pub exists : Bytes → Bool

-- What serves: the server, its proxies and static files, and the `http.Server` with its address.
pub record Process (host : Host) : Type 0 where
  pub settings : Settings host.rate
  pub trusted : List Prefix
  pub static_dir : Bytes
  pub http_server : TimeoutConfig
  pub addr : Bytes

module _ (host : Host) where
  open host use {getenv}

  -- The libraries that the server uses; `decode` is its JSON decoder.
  abbrev pub server_libs : (ℤ → Bytes → Option (TraceRequest × Bool)) → ServerLibs
  server_libs decode = record {
    rate = host.rate;
    unicode = host.unicode;
    texts = host.texts;
    decode = decode;
  }

  abbrev fallback_dir : Bytes
  fallback_dir = codes "../frontend/dist"

  -- The fallback is clean already.
  unfoldable pub static_dir_of : Bytes → Bytes
  static_dir_of value =
      if is_nil value then (if host.exists fallback_dir then fallback_dir else []) else value

  abbrev pub duration : String → ℤ → ℤ
  duration key fallback = env_duration host.parse_duration (getenv key) fallback

  unfoldable pub http_config : TimeoutConfig
  http_config = record {
    read_header_timeout = duration "DNSWATCHER_READ_HEADER_TIMEOUT" (seconds 5);
    read_timeout = duration "DNSWATCHER_READ_TIMEOUT" (seconds 10);
    write_timeout = duration "DNSWATCHER_WRITE_TIMEOUT" (seconds 30);
    idle_timeout = duration "DNSWATCHER_IDLE_TIMEOUT" (seconds 60);
    max_header_bytes = env_int (getenv "DNSWATCHER_MAX_HEADER_BYTES") (pos (2 ^ 20));
  }

  unfoldable pub server_settings : Option (Settings host.rate)
  server_settings = new_settings host.rate (record {
    body_limit_bytes = env_int64 (getenv "DNSWATCHER_BODY_LIMIT_BYTES") (pos 2048);
    rate_limit_per_minute = env_int (getenv "DNSWATCHER_RATE_LIMIT_PER_MINUTE") (pos 20);
    burst = env_int (getenv "DNSWATCHER_RATE_LIMIT_BURST") (pos 5);
    max_concurrent_traces = env_int (getenv "DNSWATCHER_MAX_CONCURRENT_TRACES") (pos 8);
  })

  -- What `main` builds behind the proxies and the settings.
  unfoldable pub process_with : List Prefix → Settings host.rate → Process host
  process_with trusted settings = record {
    settings = settings;
    trusted = trusted;
    static_dir = static_dir_of (getenv "DNSWATCHER_STATIC_DIR");
    http_server = stdlib_server http_config;
    addr =
        join_host_port (env_string (getenv "HOST") []) (env_string (getenv "PORT") (codes "8080"));
  }

  -- `main`; `none` is `log.Fatalf` or the panic of `NewServer`, before anything is served.
  unfoldable pub start_process : Option (Process host)
  start_process = do
    trusted ← trusted_proxies host.unicode host.texts (getenv "DNSWATCHER_TRUSTED_PROXY_CIDRS")
    settings ← server_settings
    some (process_with trusted settings)
