-- ===== src/HttpApi/Limiters.antt =====
-- The rate limiters of backend/internal/httpapi/server.go: a map from client keys to limiters,
-- which it shares with the requests that hold one. The map is an association list, and a limiter is
-- an index into the heap.
pub mod Separate
pub mod Lasting
pub mod Spec
pub mod View
pub mod Refines
use dnswatcher.Prelude.{
  ℕ, ℤ, ◌+◌, ◌-◌, Bool, true, false, not, List, [], ◌∷◌, ◌++◌, Option, none, some, ltb, leb,
  if◌then◌else◌, Bytes, equal, length,
}

-- `golang.org/x/time/rate`: `Every`, `NewLimiter`, and `Allow` at a time, with the limiter after it.
pub record RateLib : Type 1 where
  pub Rate : Type 0
  pub Limiter : Type 0
  pub every : ℤ → Rate
  pub new_limiter : Rate → ℤ → Limiter
  pub allow : ℕ → Limiter → Bool × Limiter

pub record LimiterEntry : Type 0 where
  pub limiter : ℕ
  pub last_seen : ℕ

abbrev pub Entries : Type 0
Entries = List (Bytes × LimiterEntry)

unfoldable pub find_entry : Bytes → Entries → Option LimiterEntry
find_entry key [] = none
find_entry key ((other, entry) ∷ entries) =
    let later = find_entry key entries in if equal key other then some entry else later

-- `entry.lastSeen = now`
unfoldable pub touch_entry : Bytes → ℕ → Entries → Entries
touch_entry key now [] = []
touch_entry key now ((other, entry) ∷ entries) =
    let later = touch_entry key now entries in
    if equal key other
    then (other, record entry { last_seen = now }) ∷ entries
    else (other, entry) ∷ later

-- `cleanupLimiters`
unfoldable pub cleanup_limiters : ℕ → ℕ → Entries → Entries
cleanup_limiters ttl now [] = []
cleanup_limiters ttl now ((key, entry) ∷ entries) =
    let later = cleanup_limiters ttl now entries in
    if ltb ttl (now - entry.last_seen) then later else (key, entry) ∷ later

-- The fields of `Server` that do not change.
pub record Settings (lib : RateLib) : Type 0 where
  pub body_limit : ℤ
  pub limiter_rate : lib.Rate
  pub limiter_burst : ℤ
  pub limiter_ttl : ℕ
  pub limiter_cleanup_interval : ℕ
  pub max_concurrent : ℕ

-- The fields that do; `in_flight` is the number of tokens in the semaphore.
pub record ServerState (lib : RateLib) : Type 0 where
  pub limiters : Entries
  pub heap : List lib.Limiter
  pub last_limiter_cleanup : ℕ
  pub in_flight : ℕ

-- `NewServer`, at a time.
unfoldable pub new_state : (lib : RateLib) → ℕ → ServerState lib
new_state lib now = record { limiters = []; heap = []; last_limiter_cleanup = now; in_flight = 0 }

module _ (lib : RateLib) where
  unfoldable pub cleaned : Settings lib → ℕ → ServerState lib → ServerState lib
  cleaned cfg now state =
      if leb cfg.limiter_cleanup_interval (now - state.last_limiter_cleanup)
      then record state {
        limiters = cleanup_limiters cfg.limiter_ttl now state.limiters;
        last_limiter_cleanup = now;
      }
      else state

  unfoldable pub found_or_new :
      Settings lib → ℕ → Bytes → Option LimiterEntry → ServerState lib → ℕ × ServerState lib
  found_or_new cfg now key (some entry) state =
      (entry.limiter, record state { limiters = touch_entry key now state.limiters })
  found_or_new cfg now key none state = (
    length state.heap,
    record state {
      limiters = (key, record { limiter = length state.heap; last_seen = now }) ∷ state.limiters;
      heap = state.heap ++ lib.new_limiter cfg.limiter_rate cfg.limiter_burst ∷ [];
    },
  )

  -- `limiterFor`, at the time `now`: the limiter, and the state after it.
  unfoldable pub limiter_for : Settings lib → ℕ → Bytes → ServerState lib → ℕ × ServerState lib
  limiter_for cfg now key state =
      let state' = cleaned cfg now state in
      found_or_new cfg now key (find_entry key state'.limiters) state'

  -- `limiter.Allow()` on the limiter at an index; one out of range is never asked.
  unfoldable pub allow_at : ℕ → ℕ → List lib.Limiter → Bool × List lib.Limiter
  allow_at now index [] = (false, [])
  allow_at now index (limiter ∷ limiters) =
      let here = lib.allow now limiter in
      let later = allow_at now (index - 1) limiters in
      if leb index 0 then (here.0, here.1 ∷ limiters) else (later.0, limiter ∷ later.1)

  unfoldable pub ask_limiter : ℕ → ℕ → ServerState lib → Bool × ServerState lib
  ask_limiter now index state =
      let asked = allow_at now index state.heap in (asked.0, record state { heap = asked.1 })
