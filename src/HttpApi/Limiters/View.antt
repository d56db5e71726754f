-- ===== src/HttpApi/Limiters/View.antt =====
-- What the map and the heap of limiters show of each client, and how their operations change it.
use dnswatcher.Prelude.{
  ℕ, zero, suc, ◌-◌, ◌<◌, ◌≡◌, ◌≢◌, refl, sym, ap, false, Bool-cases, inl, inr, List, [], ◌∷◌, ◌++◌,
  Option, none, some, ltb, if◌then◌else◌, Bytes, equal, equal_iff, length, All, arith,
}
use dnswatcher.HttpApi.Limiters.{
  RateLib, Entries, LimiterEntry, ServerState, find_entry, touch_entry, cleanup_limiters,
  ask_limiter, allow_at,
}
use dnswatcher.HttpApi.Limiters.Separate.{
  AreSeparate, IsSeparate, limiter_at, allow_at-other, find_entry-ne,
}
use dnswatcher.HttpApi.Limiters.Spec.{Client, Clients}

find_entry-absent :
    (key : Bytes) (limiter : ℕ) (entries : Entries)
    → All (λ o. (key ≢ o.0) × (limiter ≢ o.1.limiter)) entries
    → find_entry key entries ≡ none
unfolding find_entry
find_entry-absent key limiter [] h = refl
find_entry-absent key limiter ((k, entry) ∷ entries) ((ne, _), h) =
    ground (arith, equal_iff key k, find_entry-absent key limiter entries h)

abbrev pub kept : ℕ → ℕ → Option LimiterEntry → Option LimiterEntry
kept ttl now none = none
kept ttl now (some entry) = if ltb ttl (now - entry.last_seen) then none else some entry

pub find_entry-cleanup_kept :
    (key : Bytes) (ttl now bound : ℕ) (entries : Entries)
    → AreSeparate bound entries
    → find_entry key (cleanup_limiters ttl now entries) ≡ kept ttl now (find_entry key entries)
unfolding find_entry cleanup_limiters
find_entry-cleanup_kept key ttl now bound [] h = refl
find_entry-cleanup_kept key ttl now bound ((k, entry) ∷ entries) (b, h, hs) =
    elim (Bool-cases (equal key k)) [
      | inl same ↦
          let e = (equal_iff key k).0 same in
          let gone : find_entry key entries ≡ none =
            rw (sym e) at (find_entry-absent k entry.limiter entries h) in
          ground (arith, find_entry-cleanup_kept key ttl now bound entries hs)
      | inr other ↦ ground (arith, find_entry-cleanup_kept key ttl now bound entries hs)
    ]

pub find_entry-lt :
    (key : Bytes) (bound : ℕ) (entries : Entries) (entry : LimiterEntry)
    → AreSeparate bound entries
    → find_entry key entries ≡ some entry
    → entry.limiter < bound
unfolding find_entry
find_entry-lt key bound [] entry h e = cc
find_entry-lt key bound ((k, found) ∷ entries) entry (b, _, hs) e =
    ground (arith, find_entry-lt key bound entries entry hs)

pub find_entry-touch_ne :
    (key other : Bytes) (now : ℕ) (entries : Entries)
    → equal key other ≡ false
    → find_entry key (touch_entry other now entries) ≡ find_entry key entries
unfolding find_entry touch_entry
find_entry-touch_ne key other now [] ne = refl
find_entry-touch_ne key other now ((k, found) ∷ entries) ne =
    ground (arith, equal_iff other k, equal_iff key k, find_entry-touch_ne key other now entries ne)

module _ (lib : RateLib) where
  pub limiter_at-some :
      (index : ℕ) (heap : List lib.Limiter)
      → index < length heap
      → (limiter : lib.Limiter) × (limiter_at lib index heap ≡ some limiter)
  limiter_at-some index [] h = absurd (omega arith)
  limiter_at-some zero (limiter ∷ heap) h = (limiter, refl)
  limiter_at-some (suc index) (limiter ∷ heap) h = limiter_at-some index heap (omega arith)

  pub limiter_at-append :
      (index : ℕ) (heap : List lib.Limiter) (fresh : lib.Limiter)
      → index < length heap
      → limiter_at lib index (heap ++ fresh ∷ []) ≡ limiter_at lib index heap
  limiter_at-append index [] fresh h = absurd (omega arith)
  limiter_at-append zero (limiter ∷ heap) fresh h = refl
  limiter_at-append (suc index) (limiter ∷ heap) fresh h =
      limiter_at-append index heap fresh (omega arith)

  pub limiter_at-length :
      (heap : List lib.Limiter) (fresh : lib.Limiter)
      → limiter_at lib (length heap) (heap ++ fresh ∷ []) ≡ some fresh
  limiter_at-length [] fresh = refl
  limiter_at-length (limiter ∷ heap) fresh = limiter_at-length heap fresh

  pub allow_at_self :
      (now index : ℕ) (heap : List lib.Limiter) (limiter : lib.Limiter)
      → limiter_at lib index heap ≡ some limiter
      → ((allow_at lib now index heap).0 ≡ (lib.allow now limiter).0)
        × (limiter_at lib index (allow_at lib now index heap).1 ≡ some (lib.allow now limiter).1)
  unfolding allow_at
  allow_at_self now index [] limiter e = cc
  allow_at_self now zero (l ∷ heap) limiter e = ground arith
  allow_at_self now (suc index) (l ∷ heap) limiter e =
      ground (arith, allow_at_self now index heap limiter e)

  abbrev pub with_seen : ℕ → Option lib.Limiter → Client lib
  with_seen seen none = none
  with_seen seen (some limiter) = some (limiter, seen)

  abbrev pub view_of : List lib.Limiter → Option LimiterEntry → Client lib
  view_of heap none = none
  view_of heap (some entry) = with_seen entry.last_seen (limiter_at lib entry.limiter heap)

  -- A client as the state holds it.
  abbrev pub view : ServerState lib → Bytes → Client lib
  view state key = view_of state.heap (find_entry key state.limiters)

  -- A state shows clients: a limiter and a time for each, and the time of the last clean-up.
  pub record Shows (state : ServerState lib) (clients : Clients lib) : Type 0 where
    pub separate : IsSeparate lib state
    pub client : (key : Bytes) → view state key ≡ clients.client key
    pub cleaned_at : state.last_limiter_cleanup ≡ clients.cleaned_at

  -- `Allow` on a key's limiter changes the view at this key alone.
  pub ask_limiter-view :
      (later : ℕ) (key other : Bytes) (entry : LimiterEntry) (limiter : lib.Limiter)
      (state : ServerState lib)
      → IsSeparate lib state
      → find_entry key state.limiters ≡ some entry
      → limiter_at lib entry.limiter state.heap ≡ some limiter
      → view (ask_limiter lib later entry.limiter state).1 other ≡ (
          if equal other key
          then some ((lib.allow later limiter).1, entry.last_seen)
          else view state other)
  unfolding ask_limiter
  ask_limiter-view later key other entry limiter state h found held =
      elim (Bool-cases (equal other key)) [
        | inl same ↦
            let e = (equal_iff other key).0 same in
            rw (same, e, found, (allow_at_self later entry.limiter state.heap limiter held).1) refl
        | inr ne ↦ rw ne (others (find_entry other state.limiters) refl ne)
      ]
    where
      others :
          (at : Option LimiterEntry)
          → find_entry other state.limiters ≡ at
          → equal other key ≡ false
          → view_of (allow_at lib later entry.limiter state.heap).1 at ≡ view_of state.heap at
      others none e ne = refl
      others (some found') e ne = ap (with_seen found'.last_seen) (
          allow_at-other lib later entry.limiter found'.limiter state.heap (
            find_entry-ne key other (length state.heap) state.limiters entry found' h.separate
              (λ k. let t = (equal_iff other key).1 (sym k) in cc) found e))
