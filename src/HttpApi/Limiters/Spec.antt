-- ===== src/HttpApi/Limiters/Spec.antt =====
-- What the limiters are for, without the map, the heap and the lock: each client has a limiter and
-- the time at which it was last seen, or is not known.
use dnswatcher.Prelude.{
  ℕ, ◌-◌, Bool, List, [], ◌∷◌, Option, none, some, ltb, leb, if◌then◌else◌, Bytes, equal,
}
use dnswatcher.HttpApi.Limiters.{RateLib, Settings}

module _ (lib : RateLib) where
  abbrev pub Client : Type 0
  Client = Option (lib.Limiter × ℕ)

  pub record Clients : Type 0 where
    pub client : Bytes → Client
    pub cleaned_at : ℕ

  abbrev pub no_clients : ℕ → Clients
  no_clients now = record { client = λ _. none; cleaned_at = now }

module _ (lib : RateLib) (cfg : Settings lib) where
  -- A client that was not seen for too long is forgotten.
  abbrev pub unless_stale : ℕ → Client lib → Client lib
  unless_stale now none = none
  unless_stale now (some (limiter, seen)) =
      if ltb cfg.limiter_ttl (now - seen) then none else some (limiter, seen)

  abbrev pub forget : ℕ → Clients lib → Clients lib
  forget now clients =
      if leb cfg.limiter_cleanup_interval (now - clients.cleaned_at)
      then record { client = λ key. unless_stale now (clients.client key); cleaned_at = now }
      else clients

  abbrev pub limiter_of : Client lib → lib.Limiter
  limiter_of none = lib.new_limiter cfg.limiter_rate cfg.limiter_burst
  limiter_of (some (limiter, seen)) = limiter

  -- A request of a client at the time `now`, which its limiter judges at the time `later`.
  abbrev pub admit : ℕ → ℕ → Bytes → Clients lib → Bool × Clients lib
  admit now later key clients =
      let known = forget now clients in
      let asked = lib.allow later (limiter_of (known.client key)) in
      (
        asked.0,
        record known {
          client = λ other. if equal other key then some (asked.1, now) else known.client other;
        },
      )

  abbrev pub admit_all : List (ℕ × ℕ × Bytes) → Clients lib → List Bool
  admit_all [] clients = []
  admit_all ((now, later, key) ∷ calls) clients =
      let r = admit now later key clients in r.0 ∷ admit_all calls r.1
