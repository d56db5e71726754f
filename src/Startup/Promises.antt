-- ===== src/Startup/Promises.antt =====
-- What the process's configuration promises when it serves.
use native.Mathlib.Nat.{div-lt_iff_lt-mul}
use dnswatcher.Prelude.{
  Bool, List, >>=-eq-some, some_injective, ℕ, zero, suc, ◌/◌, ◌^◌, ◌≤◌, ◌<◌, ◌≡◌, ◌≢◌, sym, ap, ◌∙◌,
  ◌↔◌, Option, some, ℤ, pos, negsuc, minus, arith, Bytes,
}
use dnswatcher.Contracts.{TraceRequest}
use dnswatcher.Net.{Prefix}
use dnswatcher.HttpApi.Limiters.{RateLib, Settings}
use dnswatcher.HttpApi.Server.{
  ServerConfig, or_default, minute, period_of, channel_size, new_settings,
}
use dnswatcher.HttpApi.Server.Concurrency.{System, Reachable, Reachable-IsBounded, running_count}
use dnswatcher.HttpApi.Timeouts.{stdlib_server}
use dnswatcher.Startup.{env_csv, trusted_proxies}
use dnswatcher.Startup.Env.{env_int}
use dnswatcher.Startup.Env.Numerals.{numeral, env_int-numeral}
use dnswatcher.Startup.FailClosed.{AreParsed, trusted_proxies-AreParsed}
use dnswatcher.Startup.Process.{
  server_libs, Host, Process, process_with, server_settings, start_process,
}

-- The number is greater than 0.
abbrev pub IsPositive : ℤ → Type 0
IsPositive (pos n) = 0 < n
IsPositive (negsuc n) = ⊥

-- The rates, in requests a minute, that are limits: 0 stands for the default.
abbrev pub IsRate : ℤ → Type 0
IsRate (pos n) = n ≤ minute
IsRate (negsuc n) = ⊥

period-IsPositive : (n : ℕ) → 0 < n → n ≤ minute → 0 < minute / n
period-IsPositive n h k = grind (arith, (div-lt_iff_lt-mul {k = n} {x = minute} {y = 1} h).0)

positive-IsPeriod : (n : ℕ) → 0 < n → 0 < minute / n → n ≤ minute
positive-IsPeriod n h k = grind (arith, (div-lt_iff_lt-mul {k = n} {x = minute} {y = 1} h).1)

minus-not_IsPositive : (n : ℕ) → IsPositive (minus n) → ⊥
minus-not_IsPositive zero h = omega arith
minus-not_IsPositive (suc n) h = h

pub period_of-IsPositive : (v : ℤ) → IsPositive (period_of v) ↔ IsRate v
unfolding period_of
period_of-IsPositive (pos zero) = (λ h. omega arith, λ h. omega arith)
period_of-IsPositive (pos (suc n)) =
    (λ h. positive-IsPeriod (suc n) (omega arith) h, λ h. period-IsPositive (suc n) (omega arith) h)
period_of-IsPositive (negsuc n) = (λ h. minus-not_IsPositive (minute / suc n) h, λ h. absurd h)

-- The second of two steps, of which the first gives a value.
or_default-IsSet : (v : ℤ) (n : ℕ) → 0 < n → or_default v (pos n) ≢ pos 0
or_default-IsSet (pos zero) n h e = let same : n ≡ 0 = cc in omega arith
or_default-IsSet (pos (suc m)) n h e = cc
or_default-IsSet (negsuc m) n h e = cc

-- What NewServer makes of its configuration.
record IsMade (lib : RateLib) (cfg : ServerConfig) (settings : Settings lib) : Type 0 where
  size : channel_size (or_default cfg.max_concurrent_traces (pos 8)) ≡ some settings.max_concurrent
  body : settings.body_limit ≡ or_default cfg.body_limit_bytes (pos 2048)

new_settings-IsMade :
    (lib : RateLib) (cfg : ServerConfig) (settings : Settings lib)
    → new_settings lib cfg ≡ some settings
    → IsMade lib cfg settings
unfolding new_settings
new_settings-IsMade lib cfg settings e =
    let (size, c, made) =
      >>=-eq-some (channel_size (or_default cfg.max_concurrent_traces (pos 8))) _ e in
    let same = some_injective made in
    record {
      size = c ∙ ap (λ (s : Settings lib). some s.max_concurrent) same;
      body = sym (ap (λ (s : Settings lib). s.body_limit) same);
    }

channel_size-eq :
    (n size : ℕ) → 0 < n → channel_size (or_default (pos n) (pos 8)) ≡ some size → size ≡ n
channel_size-eq zero size h e = absurd (omega arith)
channel_size-eq (suc n) size h e = cc

-- A channel of a configured size has room, since 0 stands for the default.
channel_size-pos :
    (v : ℤ) (n size : ℕ) → 0 < n → channel_size (or_default v (pos n)) ≡ some size → 0 < size
channel_size-pos (pos zero) n size h e = let same : n ≡ size = cc in omega arith
channel_size-pos (pos (suc m)) n size h e = let same : suc m ≡ size = cc in omega arith
channel_size-pos (negsuc m) n size h e = cc

module _ (host : Host) where
  -- What the settings of a process that serves have, whatever the environment says.
  pub record IsGuarded (process : Process host) : Type 0 where
    pub proxies :
        AreParsed host.unicode host.texts
          (env_csv host.unicode (host.getenv "DNSWATCHER_TRUSTED_PROXY_CIDRS"))
          process.trusted
    pub room : 0 < process.settings.max_concurrent
    pub body_limit : process.settings.body_limit ≢ pos 0
    pub read_header_timeout : process.http_server.read_header_timeout ≢ pos 0
    pub read_timeout : process.http_server.read_timeout ≢ pos 0
    pub write_timeout : process.http_server.write_timeout ≢ pos 0
    pub idle_timeout : process.http_server.idle_timeout ≢ pos 0
    pub max_header_bytes : process.http_server.max_header_bytes ≢ pos 0

  -- A process that serves came from proxies and settings.
  record Started (process : Process host) : Type 0 where
    trusted : List Prefix
    settings : Settings host.rate
    parsed :
        trusted_proxies host.unicode host.texts (host.getenv "DNSWATCHER_TRUSTED_PROXY_CIDRS")
        ≡ some trusted
    made : server_settings host ≡ some settings
    built : process ≡ process_with host trusted settings

  start_process-Started :
      (process : Process host) → start_process host ≡ some process → Started process
  unfolding start_process
  start_process-Started process e =
      let (trusted, t, rest) =
        >>=-eq-some
          (trusted_proxies host.unicode host.texts (host.getenv "DNSWATCHER_TRUSTED_PROXY_CIDRS")) _
          e in
      let (settings, s, built) = >>=-eq-some (server_settings host) _ rest in
      record {
        trusted = trusted;
        settings = settings;
        parsed = t;
        made = s;
        built = sym (some_injective built);
      }

  -- A process that serves has the proxies that its variable names, room for a trace at a time, and
  -- limits and timeouts that are not 0, which would be none.
  pub start_process-IsGuarded :
      (process : Process host) → start_process host ≡ some process → IsGuarded process
  unfolding process_with stdlib_server server_settings
  start_process-IsGuarded process e =
      let started = start_process-Started process e in
      let made = new_settings-IsMade host.rate _ started.settings started.made in
      rw (started.built) (record {
        proxies =
            (trusted_proxies-AreParsed host.unicode host.texts
                (host.getenv "DNSWATCHER_TRUSTED_PROXY_CIDRS") started.trusted).0
              started.parsed;
        room = channel_size-pos _ 8 started.settings.max_concurrent (omega arith) made.size;
        body_limit = λ z. or_default-IsSet _ 2048 (omega arith) (sym made.body ∙ z);
        read_header_timeout = or_default-IsSet _ _ (omega arith);
        read_timeout = or_default-IsSet _ _ (omega arith);
        write_timeout = or_default-IsSet _ _ (omega arith);
        idle_timeout = or_default-IsSet _ _ (omega arith);
        max_header_bytes = or_default-IsSet _ _ (omega arith);
      })

  start_process-size :
      (process : Process host) (n : ℕ)
      → start_process host ≡ some process
      → 0 < n
      → n < 2 ^ 63
      → host.getenv "DNSWATCHER_MAX_CONCURRENT_TRACES" ≡ numeral (pos n)
      → process.settings.max_concurrent ≡ n
  unfolding process_with server_settings
  start_process-size process n e h k named =
      let started = start_process-Started process e in
      let made = new_settings-IsMade host.rate _ started.settings started.made in
      let read : env_int (host.getenv "DNSWATCHER_MAX_CONCURRENT_TRACES") (pos 8) ≡ pos n =
        rw named (env_int-numeral (pos n) (pos 8) k) in
      rw (started.built) (channel_size-eq n _ h (rw read at made.size))

  -- If the variable holds the numeral of a number of 64 bits that is not 0, and the process serves,
  -- then no state that its server reaches runs more traces than that number.
  pub start_process-running_count :
      (process : Process host) (n : ℕ) (decode : ℤ → Bytes → Option (TraceRequest × Bool))
      (s : System (server_libs host decode) process.settings process.trusted)
      → start_process host ≡ some process
      → 0 < n
      → n < 2 ^ 63
      → host.getenv "DNSWATCHER_MAX_CONCURRENT_TRACES" ≡ numeral (pos n)
      → Reachable (server_libs host decode) process.settings process.trusted s
      → running_count s.1 ≤ n
  start_process-running_count process n decode s e h k named reached =
      let bounded =
        Reachable-IsBounded (server_libs host decode) process.settings process.trusted s reached in
      let size = start_process-size process n e h k named in
      omega (arith, bounded.counted, bounded.bounded, size)
