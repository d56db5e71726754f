-- ===== src/HttpApi/Limiters/Lasting.antt =====
-- A client keeps its limiter while it is seen often enough.
use dnswatcher.Prelude.{
  ℕ, ◌-◌, ◌≤◌, ◌≡◌, refl, Bool-cases, inl, inr, List, [], ◌∷◌, Option, none, some, leb, Bytes,
  equal, equal_iff, false, sym, ◌∙◌, All, arith,
}
use dnswatcher.HttpApi.Limiters.{
  RateLib, Entries, LimiterEntry, Settings, ServerState, find_entry, touch_entry, cleanup_limiters,
  cleaned, found_or_new, limiter_for,
}

abbrev pub entry_of : ℕ → ℕ → LimiterEntry
entry_of limiter now = record { limiter = limiter; last_seen = now }

pub find_entry-touch_entry :
    (key : Bytes) (now : ℕ) (entries : Entries) (entry : LimiterEntry)
    → find_entry key entries ≡ some entry
    → find_entry key (touch_entry key now entries) ≡ some (entry_of entry.limiter now)
unfolding find_entry touch_entry
find_entry-touch_entry key now [] entry e = cc
find_entry-touch_entry key now ((k, found) ∷ entries) entry e =
    ground (arith, find_entry-touch_entry key now entries entry)

pub find_entry-touch_other :
    (key other : Bytes) (now : ℕ) (entries : Entries) (entry : LimiterEntry)
    → equal key other ≡ false
    → find_entry key entries ≡ some entry
    → find_entry key (touch_entry other now entries) ≡ some entry
unfolding find_entry touch_entry
find_entry-touch_other key other now [] entry ne e = cc
find_entry-touch_other key other now ((k, found) ∷ entries) entry ne e = ground (
  arith,
  equal_iff other k,
  equal_iff key k,
  find_entry-touch_other key other now entries entry ne,
)

-- The clean-up leaves an entry that is not older than the limit.
find_entry-cleanup_limiters :
    (key : Bytes) (ttl now : ℕ) (entries : Entries) (entry : LimiterEntry)
    → now - entry.last_seen ≤ ttl
    → find_entry key entries ≡ some entry
    → find_entry key (cleanup_limiters ttl now entries) ≡ some entry
unfolding find_entry cleanup_limiters
find_entry-cleanup_limiters key ttl now [] entry young e = cc
find_entry-cleanup_limiters key ttl now ((k, found) ∷ entries) entry young e =
    ground (arith, find_entry-cleanup_limiters key ttl now entries entry young)

module _ (lib : RateLib) (cfg : Settings lib) where
  found_or_new-find_entry :
      (now : ℕ) (key : Bytes) (found : Option LimiterEntry) (state : ServerState lib)
      → find_entry key state.limiters ≡ found
      → find_entry key (found_or_new lib cfg now key found state).1.limiters
        ≡ some (entry_of (found_or_new lib cfg now key found state).0 now)
  unfolding found_or_new
  found_or_new-find_entry now key (some entry) state e =
      find_entry-touch_entry key now state.limiters entry e
  found_or_new-find_entry now key none state e =
      let itself = (equal_iff key key).1 refl in unfold find_entry in rw itself refl

  -- What `limiterFor` returns is behind the key, with the time of the call.
  pub limiter_for-find_entry :
      (now : ℕ) (key : Bytes) (state : ServerState lib)
      → find_entry key (limiter_for lib cfg now key state).1.limiters
        ≡ some (entry_of (limiter_for lib cfg now key state).0 now)
  unfolding limiter_for
  limiter_for-find_entry now key state =
      found_or_new-find_entry now key _ (cleaned lib cfg now state) refl

  cleaned-find_entry :
      (now : ℕ) (key : Bytes) (state : ServerState lib) (entry : LimiterEntry)
      → now - entry.last_seen ≤ cfg.limiter_ttl
      → find_entry key state.limiters ≡ some entry
      → find_entry key (cleaned lib cfg now state).limiters ≡ some entry
  unfolding cleaned
  cleaned-find_entry now key state entry young e =
      elim (Bool-cases (leb cfg.limiter_cleanup_interval (now - state.last_limiter_cleanup))) [
        | inl due ↦
            rw due
              (find_entry-cleanup_limiters key cfg.limiter_ttl now state.limiters entry young e)
        | inr early ↦ rw early e
      ]

  limiter_for-known :
      (now : ℕ) (key : Bytes) (state : ServerState lib) (entry : LimiterEntry)
      → now - entry.last_seen ≤ cfg.limiter_ttl
      → find_entry key state.limiters ≡ some entry
      → (limiter_for lib cfg now key state).0 ≡ entry.limiter
  unfolding limiter_for found_or_new
  limiter_for-known now key state entry young e =
      rw (cleaned-find_entry now key state entry young e)

  -- The key's limiter, in use since a time.
  record Holds (key : Bytes) (limiter since : ℕ) (state : ServerState lib) : Type 0 where
    entry : LimiterEntry
    found : find_entry key state.limiters ≡ some entry
    same : entry.limiter ≡ limiter
    seen : since ≤ entry.last_seen

  limiter_for-own :
      (key : Bytes) (limiter since now : ℕ) (state : ServerState lib)
      → since ≤ now
      → now - since ≤ cfg.limiter_ttl
      → Holds key limiter since state
      → Holds key limiter since (limiter_for lib cfg now key state).1
  limiter_for-own key limiter since now state later young h =
      let kept = h.seen in
      record {
        entry = entry_of (limiter_for lib cfg now key state).0 now;
        found = limiter_for-find_entry now key state;
        same = limiter_for-known now key state h.entry (omega (arith, kept)) h.found ∙ h.same;
        seen = later;
      }

  found_or_new-other :
      (now : ℕ) (key other : Bytes) (found : Option LimiterEntry) (state : ServerState lib)
      (entry : LimiterEntry)
      → equal key other ≡ false
      → find_entry key state.limiters ≡ some entry
      → find_entry key (found_or_new lib cfg now other found state).1.limiters ≡ some entry
  unfolding found_or_new find_entry
  found_or_new-other now key other (some old) state entry ne e =
      find_entry-touch_other key other now state.limiters entry ne e
  found_or_new-other now key other none state entry ne e = rw ne e

  limiter_for-Holds :
      (key other : Bytes) (limiter since now : ℕ) (state : ServerState lib)
      → since ≤ now
      → now - since ≤ cfg.limiter_ttl
      → Holds key limiter since state
      → Holds key limiter since (limiter_for lib cfg now other state).1
  limiter_for-Holds key other limiter since now state later young h =
      elim (Bool-cases (equal key other)) [
        | inl mine ↦
            rw (sym ((equal_iff key other).0 mine))
              (limiter_for-own key limiter since now state later young h)
        | inr ne ↦
            let kept = h.seen in
            let before = cleaned-find_entry now key state h.entry (omega (arith, kept)) h.found in
            record {
              entry = h.entry;
              found =
                  unfold limiter_for in
                  found_or_new-other now key other _ (cleaned lib cfg now state) h.entry ne before;
              same = h.same;
              seen = h.seen;
            }
      ]

  -- Calls of `limiterFor`, each with its time and its key.
  abbrev pub after_calls : List (ℕ × Bytes) → ServerState lib → ServerState lib
  after_calls [] state = state
  after_calls ((now, key) ∷ calls) state = after_calls calls (limiter_for lib cfg now key state).1

  after_calls-Holds :
      (key : Bytes) (limiter since : ℕ) (calls : List (ℕ × Bytes)) (state : ServerState lib)
      → All (λ call. (since ≤ call.0) × (call.0 - since ≤ cfg.limiter_ttl)) calls
      → Holds key limiter since state
      → Holds key limiter since (after_calls calls state)
  after_calls-Holds key limiter since [] state times h = h
  after_calls-Holds key limiter since ((now, other) ∷ calls) state ((later, young), times) h =
      after_calls-Holds key limiter since calls (limiter_for lib cfg now other state).1 times
        (limiter_for-Holds key other limiter since now state later young h)

  -- Within the limiter's lifetime of a call for a key, after any calls for any keys, a call for the
  -- key returns the same limiter: a client does not get a fresh one by waiting less than that, nor
  -- by the requests of others.
  pub limiter_for-same :
      (key : Bytes) (since now : ℕ) (calls : List (ℕ × Bytes)) (state : ServerState lib)
      → All (λ call. (since ≤ call.0) × (call.0 - since ≤ cfg.limiter_ttl)) calls
      → now - since ≤ cfg.limiter_ttl
      → (limiter_for lib cfg now key (after_calls calls (limiter_for lib cfg since key state).1)).0
        ≡ (limiter_for lib cfg since key state).0
  limiter_for-same key since now calls state times young =
      let first = limiter_for lib cfg since key state in
      let held : Holds key first.0 since first.1 = record {
        entry = entry_of first.0 since;
        found = limiter_for-find_entry since key state;
        same = refl;
        seen = omega arith;
      } in
      let h = after_calls-Holds key first.0 since calls first.1 times held in
      let kept = h.seen in
      limiter_for-known now key (after_calls calls first.1) h.entry (omega (arith, kept)) h.found
      ∙ h.same
