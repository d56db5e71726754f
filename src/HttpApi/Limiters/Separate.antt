-- ===== src/HttpApi/Limiters/Separate.antt =====
-- Clients do not share a limiter.
use dnswatcher.Prelude.{
  ℕ, zero, suc, ◌-◌, ◌<◌, ◌≤◌, ◌≡◌, ◌≢◌, refl, List, [], ◌∷◌, ◌++◌, Option, none, some, leb, Bytes,
  equal_iff, length, length-append, All, arith, Bool-cases, inl, inr,
}
use dnswatcher.HttpApi.Limiters.{
  RateLib, Entries, LimiterEntry, Settings, ServerState, find_entry, touch_entry, cleanup_limiters,
  cleaned, found_or_new, limiter_for, ask_limiter, allow_at,
}

-- Each key has one entry, each entry a limiter of its own, and the limiters are in the heap.
abbrev pub AreSeparate : ℕ → Entries → Type 0
AreSeparate bound [] = Unit
AreSeparate bound ((key, entry) ∷ entries) =
    (entry.limiter < bound)
    × All (λ other. (key ≢ other.0) × (entry.limiter ≢ other.1.limiter)) entries
    × AreSeparate bound entries

module _ (key : Bytes) (now : ℕ) where
  touch_entry-All :
      (other : Bytes) (limiter : ℕ) (entries : Entries)
      → All (λ o. (other ≢ o.0) × (limiter ≢ o.1.limiter)) entries
      → All (λ o. (other ≢ o.0) × (limiter ≢ o.1.limiter)) (touch_entry key now entries)
  unfolding touch_entry
  touch_entry-All other limiter [] h = h
  touch_entry-All other limiter ((k, entry) ∷ entries) (h, hs) =
      ground (arith, h, hs, touch_entry-All other limiter entries hs)

  touch_entry-AreSeparate :
      (bound : ℕ) (entries : Entries)
      → AreSeparate bound entries
      → AreSeparate bound (touch_entry key now entries)
  unfolding touch_entry
  touch_entry-AreSeparate bound [] h = h
  touch_entry-AreSeparate bound ((k, entry) ∷ entries) (b, h, hs) = ground (
    arith,
    b,
    h,
    hs,
    touch_entry-All k entry.limiter entries h,
    touch_entry-AreSeparate bound entries hs,
  )

module _ (ttl now : ℕ) where
  cleanup_limiters-All :
      (other : Bytes) (limiter : ℕ) (entries : Entries)
      → All (λ o. (other ≢ o.0) × (limiter ≢ o.1.limiter)) entries
      → All (λ o. (other ≢ o.0) × (limiter ≢ o.1.limiter)) (cleanup_limiters ttl now entries)
  unfolding cleanup_limiters
  cleanup_limiters-All other limiter [] h = h
  cleanup_limiters-All other limiter ((k, entry) ∷ entries) (h, hs) =
      ground (arith, h, hs, cleanup_limiters-All other limiter entries hs)

  cleanup_limiters-AreSeparate :
      (bound : ℕ) (entries : Entries)
      → AreSeparate bound entries
      → AreSeparate bound (cleanup_limiters ttl now entries)
  unfolding cleanup_limiters
  cleanup_limiters-AreSeparate bound [] h = h
  cleanup_limiters-AreSeparate bound ((k, entry) ∷ entries) (b, h, hs) = ground (
    arith,
    b,
    h,
    hs,
    cleanup_limiters-All k entry.limiter entries h,
    cleanup_limiters-AreSeparate bound entries hs,
  )

AreSeparate-le :
    (bound larger : ℕ) (entries : Entries)
    → bound ≤ larger
    → AreSeparate bound entries
    → AreSeparate larger entries
AreSeparate-le bound larger [] le h = h
AreSeparate-le bound larger ((k, entry) ∷ entries) le (b, h, hs) =
    (omega arith, h, AreSeparate-le bound larger entries le hs)

-- A key without an entry differs from all keys, and a limiter behind the heap from all limiters.
find_entry-none :
    (key : Bytes) (bound : ℕ) (entries : Entries)
    → find_entry key entries ≡ none
    → AreSeparate bound entries
    → All (λ other. (key ≢ other.0) × (bound ≢ other.1.limiter)) entries
unfolding find_entry
find_entry-none key bound [] e h = tt
find_entry-none key bound ((k, entry) ∷ entries) e (b, h, hs) =
    ground (arith, equal_iff key k, find_entry-none key bound entries)

-- Where a key has an entry, no other entry of a separate map has its limiter.
find_entry-All :
    (key : Bytes) (other : Bytes) (limiter : ℕ) (entry : LimiterEntry) (entries : Entries)
    → All (λ o. (other ≢ o.0) × (limiter ≢ o.1.limiter)) entries
    → find_entry key entries ≡ some entry
    → limiter ≢ entry.limiter
unfolding find_entry
find_entry-All key other limiter entry [] h e = cc
find_entry-All key other limiter entry ((k, found) ∷ entries) ((_, ne), hs) e =
    ground (arith, find_entry-All key other limiter entry entries hs)

pub find_entry-ne :
    (a b : Bytes) (bound : ℕ) (entries : Entries) (left right : LimiterEntry)
    → AreSeparate bound entries
    → a ≢ b
    → find_entry a entries ≡ some left
    → find_entry b entries ≡ some right
    → left.limiter ≢ right.limiter
unfolding find_entry
find_entry-ne a b bound [] left right h ne ea eb same = cc
find_entry-ne a b bound ((k, entry) ∷ entries) left right (_, h, hs) ne ea eb same = ground (
  arith,
  equal_iff a k,
  equal_iff b k,
  find_entry-All a k entry.limiter left entries h,
  find_entry-All b k entry.limiter right entries h,
  find_entry-ne a b bound entries left right hs ne,
)

module _ (lib : RateLib) where
  -- The limiters of a server's state.
  pub record IsSeparate (state : ServerState lib) : Type 0 where
    pub separate : AreSeparate (length state.heap) state.limiters

  pub cleaned-IsSeparate :
      (cfg : Settings lib) (now : ℕ) (state : ServerState lib)
      → IsSeparate state
      → IsSeparate (cleaned lib cfg now state)
  unfolding cleaned
  cleaned-IsSeparate cfg now state h =
      elim (Bool-cases (leb cfg.limiter_cleanup_interval (now - state.last_limiter_cleanup))) [
        | inl due ↦ rw due (record {
          separate =
              cleanup_limiters-AreSeparate cfg.limiter_ttl now (length state.heap) state.limiters
                h.separate;
        })
        | inr early ↦ rw early h
      ]

  found_or_new-IsSeparate :
      (cfg : Settings lib) (now : ℕ) (key : Bytes) (found : Option LimiterEntry)
      (state : ServerState lib)
      → find_entry key state.limiters ≡ found
      → IsSeparate state
      → IsSeparate (found_or_new lib cfg now key found state).1
  unfolding found_or_new
  found_or_new-IsSeparate cfg now key (some entry) state e h = record {
    separate = touch_entry-AreSeparate key now (length state.heap) state.limiters h.separate;
  }
  found_or_new-IsSeparate cfg now key none state e h = record {
    separate =
        let fresh = lib.new_limiter cfg.limiter_rate cfg.limiter_burst in
        let grown = length-append state.heap (fresh ∷ []) in
        (
          omega (arith, grown),
          find_entry-none key (length state.heap) state.limiters e h.separate,
          AreSeparate-le (length state.heap) (length (state.heap ++ fresh ∷ [])) state.limiters
              (omega (arith, grown)) h.separate,
        );
  }

  -- `limiterFor` keeps one limiter for each client.
  pub limiter_for-IsSeparate :
      (cfg : Settings lib) (now : ℕ) (key : Bytes) (state : ServerState lib)
      → IsSeparate state
      → IsSeparate (limiter_for lib cfg now key state).1
  unfolding limiter_for
  limiter_for-IsSeparate cfg now key state h =
      found_or_new-IsSeparate cfg now key _ (cleaned lib cfg now state) refl
        (cleaned-IsSeparate cfg now state h)

  length-allow_at :
      (now index : ℕ) (heap : List lib.Limiter)
      → length (allow_at lib now index heap).1 ≡ length heap
  unfolding allow_at
  length-allow_at now index [] = refl
  length-allow_at now index (limiter ∷ heap) = ground (arith, length-allow_at now (index - 1) heap)

  pub ask_limiter-IsSeparate :
      (now index : ℕ) (state : ServerState lib)
      → IsSeparate state
      → IsSeparate (ask_limiter lib now index state).1
  unfolding ask_limiter
  ask_limiter-IsSeparate now index state h = record {
    separate = rw (length-allow_at now index state.heap) h.separate;
  }

  -- The limiter at an index of the heap.
  abbrev pub limiter_at : ℕ → List lib.Limiter → Option lib.Limiter
  limiter_at index [] = none
  limiter_at zero (limiter ∷ heap) = some limiter
  limiter_at (suc index) (limiter ∷ heap) = limiter_at index heap

  pub allow_at-other :
      (now index other : ℕ) (heap : List lib.Limiter)
      → index ≢ other
      → limiter_at other (allow_at lib now index heap).1 ≡ limiter_at other heap
  unfolding allow_at
  allow_at-other now index other [] ne = refl
  allow_at-other now zero zero (limiter ∷ heap) ne = absurd (ne refl)
  allow_at-other now zero (suc other) (limiter ∷ heap) ne = refl
  allow_at-other now (suc index) zero (limiter ∷ heap) ne = ground arith
  allow_at-other now (suc index) (suc other) (limiter ∷ heap) ne =
      ground (arith, allow_at-other now index other heap)

  -- `Allow` on the limiter of one client does not change the limiter of another one.
  pub ask_limiter-other :
      (now : ℕ) (a b : Bytes) (left right : LimiterEntry) (state : ServerState lib)
      → IsSeparate state
      → a ≢ b
      → find_entry a state.limiters ≡ some left
      → find_entry b state.limiters ≡ some right
      → limiter_at right.limiter (ask_limiter lib now left.limiter state).1.heap
        ≡ limiter_at right.limiter state.heap
  unfolding ask_limiter
  ask_limiter-other now a b left right state h ne ea eb =
      allow_at-other now left.limiter right.limiter state.heap
        (find_entry-ne a b (length state.heap) state.limiters left right h.separate ne ea eb)
