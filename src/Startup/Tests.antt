-- ===== src/Startup/Tests.antt =====
-- Runs of the start's configuration, and its theorem at an input.
use dnswatcher.Prelude.{
  ◌*◌, ◌^◌, ◌≤◌, arith, Bool, true, ℤ, pos, negsuc, ◌≡◌, refl, ◌↔◌, false, List, [], ◌∷◌, none,
  some, if◌then◌else◌, Bytes, codes, equal,
}
use dnswatcher.Strings.{Unicode, split, trim_space, trim_left, trim_right, is_space, is_ascii}
use dnswatcher.Net.{Prefix, v4, Texts, is_4_in_6, unmap, prefix_from, masked}
use dnswatcher.HttpApi.ClientId.{parse_trusted_proxy_cidrs, canonicalize_trusted_prefix}
use dnswatcher.Startup.{trimmed_parts, env_csv, trusted_proxies}
use dnswatcher.Net.HostPort.{join_host_port}
use dnswatcher.Trace.Records.{decimal, decimal_within}
use dnswatcher.HttpApi.Limiters.{new_state}
use dnswatcher.HttpApi.Server.{minute, period_of, new_settings}
use dnswatcher.HttpApi.Server.Concurrency.{System, start, running_count}
use dnswatcher.HttpApi.Timeouts.{seconds, stdlib_server}
use dnswatcher.Startup.Env.{
  env_string, digits_from, unsigned, parse_int, env_int, env_int64, env_duration,
}
use dnswatcher.Startup.Env.Numerals.{numeral, env_int-numeral}
use dnswatcher.Startup.Process.{
  Host, Process, server_libs, static_dir_of, http_config, server_settings, process_with,
  start_process,
}
use dnswatcher.Startup.Promises.{
  IsPositive, IsRate, period_of-IsPositive, IsGuarded, start_process-IsGuarded,
  start_process-running_count,
}

abbrev tables : Unicode
tables = record { lower = λ s. s; upper = λ s. s; trim = λ s. s; valid = λ _. false; fold = equal }

abbrev ten : Prefix
ten = record { addr = v4 0x0a000000; bits = 8 }

abbrev texts : Texts
texts = record {
  parse_addr = λ s. if equal s (codes "9.9.9.9") then some (v4 0x09090909) else none;
  parse_prefix = λ s. if equal s (codes "10.0.0.0/8") then some ten else none;
  addr_string = λ _. [];
  split_host = λ _. none;
}

abbrev configured : Bytes
configured = codes "10.0.0.0/8, ,9.9.9.9"

abbrev two_proxies : List Prefix
two_proxies = ten ∷ record { addr = v4 0x09090909; bits = 32 } ∷ []

-- Two proxies, none, and a text that is neither a prefix nor an address.
trusted_proxies_tests :
    (trusted_proxies tables texts configured ≡ some two_proxies)
    × (trusted_proxies tables texts (codes " ") ≡ some [])
    × (trusted_proxies tables texts (codes "10.0.0.0/8,all") ≡ none)
unfolding equal split trim_space trim_left trim_right is_space is_ascii is_4_in_6 unmap prefix_from
    masked parse_trusted_proxy_cidrs canonicalize_trusted_prefix trimmed_parts env_csv
    trusted_proxies
trusted_proxies_tests = (refl, refl, refl)

-- Numerals, texts that are none, and numbers at the ends of 64 bits.
env_int_tests :
    (env_int (codes "-12") (pos 5) ≡ negsuc 11)
    × (env_int (codes "+7") (pos 5) ≡ pos 7)
    × (env_int (codes "7s") (pos 5) ≡ pos 5)
    × (env_int (codes "-") (pos 5) ≡ pos 5)
    × (env_int [] (pos 5) ≡ pos 5)
    × (env_int (codes "9223372036854775808") (pos 5) ≡ pos 5)
    × (env_int (codes "-9223372036854775808") (pos 5) ≡ negsuc 9223372036854775807)
unfolding digits_from unsigned parse_int env_int
env_int_tests = (refl, refl, refl, refl, refl, refl, refl)

env_int-numeral_example : env_int (numeral (negsuc 11)) (pos 5) ≡ negsuc 11
env_int-numeral_example = env_int-numeral (negsuc 11) (pos 5) (omega arith)

period_of-IsPositive_example : IsPositive (period_of (pos 20)) ↔ IsRate (pos 20)
period_of-IsPositive_example = period_of-IsPositive (pos 20)

-- A host with the proxies of `configured` and room for two traces.
abbrev host : Host
host = record {
  rate = record {
    Rate = ℤ;
    Limiter = Bool;
    every = λ period. period;
    new_limiter = λ period burst. true;
    allow = λ now limiter. (limiter, false);
  };
  unicode = tables;
  texts = texts;
  parse_duration = λ text. none;
  getenv = λ key.
      if equal (codes key) (codes "DNSWATCHER_TRUSTED_PROXY_CIDRS")
      then configured
      else if equal (codes key) (codes "DNSWATCHER_MAX_CONCURRENT_TRACES")
      then codes "2"
      else [];
  exists = λ path. false;
}

abbrev serving : Process host
serving = record {
  settings = record {
    body_limit = pos 2048;
    limiter_rate = pos 3_000_000_000;
    limiter_burst = pos 5;
    limiter_ttl = 15 * minute;
    limiter_cleanup_interval = 5 * minute;
    max_concurrent = 2;
  };
  trusted = two_proxies;
  static_dir = [];
  http_server = record {
    read_header_timeout = seconds 5;
    read_timeout = seconds 10;
    write_timeout = seconds 30;
    idle_timeout = seconds 60;
    max_header_bytes = pos (2 ^ 20);
  };
  addr = codes ":8080";
}

host_starts : start_process host ≡ some serving
unfolding equal split trim_space trim_left trim_right is_space is_ascii is_4_in_6 unmap prefix_from
    masked parse_trusted_proxy_cidrs canonicalize_trusted_prefix trimmed_parts env_csv
    trusted_proxies digits_from unsigned parse_int env_int env_int64 env_string env_duration
    join_host_port period_of new_settings stdlib_server static_dir_of http_config server_settings
    process_with start_process
host_starts = refl

names_two : host.getenv "DNSWATCHER_MAX_CONCURRENT_TRACES" ≡ numeral (pos 2)
unfolding equal decimal decimal_within
names_two = refl

start_process-IsGuarded_example : IsGuarded host serving
start_process-IsGuarded_example = start_process-IsGuarded host serving host_starts

abbrev idle : System (server_libs host (λ limit body. none)) serving.settings serving.trusted
idle = (new_state host.rate 0, [])

start_process-running_count_example : running_count idle.1 ≤ 2
start_process-running_count_example =
    start_process-running_count host serving 2 (λ limit body. none) idle host_starts (omega arith)
      (omega arith) names_two (start 0)
