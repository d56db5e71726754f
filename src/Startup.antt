-- ===== src/Startup.antt =====
-- backend/cmd/dnswatcher-api/main.go: how the process reads its trusted proxies.
pub mod Env
pub mod FailClosed
pub mod Process
pub mod Promises
pub mod Tests
use dnswatcher.Prelude.{
  Bool, true, false, List, [], ◌∷◌, Option, none, some, if◌then◌else◌, is_nil, Bytes,
}
use dnswatcher.Strings.{Unicode, split, trim_space}
use dnswatcher.Net.{Prefix, Texts}
use dnswatcher.HttpApi.ClientId.{parse_trusted_proxy_cidrs}

module _ (unicode : Unicode) where
  -- The loop of `envCSV`.
  unfoldable pub trimmed_parts : List Bytes → List Bytes
  trimmed_parts [] = []
  trimmed_parts (part ∷ parts) =
      let trimmed = trim_space unicode part in
      let later = trimmed_parts parts in if is_nil trimmed then later else trimmed ∷ later

  -- `envCSV`, on the variable's value.
  unfoldable pub env_csv : Bytes → List Bytes
  env_csv raw =
      let value = trim_space unicode raw in
      if is_nil value then [] else trimmed_parts (split value b',')

  abbrev pub unless_invalid : List Prefix × List Bytes → Option (List Prefix)
  unless_invalid (prefixes, []) = some prefixes
  unless_invalid (prefixes, text ∷ invalid) = none

  -- The proxies that the server gets, or `log.Fatalf`.
  unfoldable pub trusted_proxies : Texts → Bytes → Option (List Prefix)
  trusted_proxies texts raw = unless_invalid (parse_trusted_proxy_cidrs unicode texts (env_csv raw))
