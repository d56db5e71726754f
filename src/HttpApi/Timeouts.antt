-- ===== src/HttpApi/Timeouts.antt =====
-- backend/internal/httpapi/server.go: StdlibServer.
use dnswatcher.Prelude.{ℕ, ◌*◌, ◌^◌, ℤ, pos}
use dnswatcher.HttpApi.Server.{or_default}

-- The settings of `Config` that `StdlibServer` reads. Durations are in nanoseconds.
pub record TimeoutConfig : Type 0 where
  pub read_header_timeout : ℤ
  pub read_timeout : ℤ
  pub write_timeout : ℤ
  pub idle_timeout : ℤ
  pub max_header_bytes : ℤ

abbrev pub seconds : ℕ → ℤ
seconds n = pos (n * 1_000_000_000)

abbrev pub default_duration : ℤ → ℤ → ℤ
default_duration value fallback = or_default value fallback

abbrev pub default_int : ℤ → ℤ → ℤ
default_int value fallback = or_default value fallback

-- The fields of `http.Server` besides its handler.
unfoldable pub stdlib_server : TimeoutConfig → TimeoutConfig
stdlib_server cfg = record {
  read_header_timeout = default_duration cfg.read_header_timeout (seconds 5);
  read_timeout = default_duration cfg.read_timeout (seconds 10);
  write_timeout = default_duration cfg.write_timeout (seconds 30);
  idle_timeout = default_duration cfg.idle_timeout (seconds 60);
  max_header_bytes = default_int cfg.max_header_bytes (pos (2 ^ 20));
}
