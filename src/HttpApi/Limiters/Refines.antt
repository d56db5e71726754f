-- ===== src/HttpApi/Limiters/Refines.antt =====
-- The map and the heap of limiters implement the clients of Spec.
use dnswatcher.Prelude.{
  ℕ, ◌-◌, ◌<◌, ◌≡◌, refl, sym, ap, ◌∙◌, Bool, Bool-cases, inl, inr, List, [], ◌∷◌, ◌++◌, Option,
  none, some, leb, if◌then◌else◌, Bytes, equal, equal_iff, length, arith,
}
use dnswatcher.HttpApi.Limiters.{
  new_state, RateLib, LimiterEntry, Settings, ServerState, find_entry, cleaned, found_or_new,
  limiter_for, ask_limiter,
}
use dnswatcher.HttpApi.Limiters.Separate.{
  IsSeparate, cleaned-IsSeparate, limiter_for-IsSeparate, ask_limiter-IsSeparate, limiter_at,
}
use dnswatcher.HttpApi.Limiters.Lasting.{entry_of, limiter_for-find_entry, find_entry-touch_entry}
use dnswatcher.HttpApi.Limiters.Spec.{
  Clients, no_clients, unless_stale, forget, limiter_of, admit, admit_all,
}
use dnswatcher.HttpApi.Limiters.View.{
  kept, find_entry-cleanup_kept, find_entry-lt, find_entry-touch_ne, limiter_at-some,
  limiter_at-append, limiter_at-length, allow_at_self, with_seen, view_of, view, Shows,
  ask_limiter-view,
}

module _ (lib : RateLib) (cfg : Settings lib) where
  view_of-kept :
      (now : ℕ) (heap : List lib.Limiter) (found : Option LimiterEntry)
      → view_of lib heap (kept cfg.limiter_ttl now found)
        ≡ unless_stale lib cfg now (view_of lib heap found)
  view_of-kept now heap none = refl
  view_of-kept now heap (some entry) = go (limiter_at lib entry.limiter heap) refl
    where
      go :
          (held : Option lib.Limiter)
          → limiter_at lib entry.limiter heap ≡ held
          → view_of lib heap (kept cfg.limiter_ttl now (some entry))
            ≡ unless_stale lib cfg now (with_seen lib entry.last_seen held)
      go none e = ground arith
      go (some limiter) e = ground arith

  cleaned-Shows :
      (now : ℕ) (state : ServerState lib) (clients : Clients lib)
      → Shows lib state clients
      → Shows lib (cleaned lib cfg now state) (forget lib cfg now clients)
  unfolding cleaned
  cleaned-Shows now state clients h =
      elim (Bool-cases (leb cfg.limiter_cleanup_interval (now - state.last_limiter_cleanup))) [
        | inl due ↦
            rw (sym h.cleaned_at, due)
              (record {
                separate = rw due at (cleaned-IsSeparate lib cfg now state h.separate);
                client = λ key.
                    ap (view_of lib state.heap) (
                      find_entry-cleanup_kept key cfg.limiter_ttl now (length state.heap)
                        state.limiters h.separate.separate)
                    ∙ view_of-kept now state.heap (find_entry key state.limiters)
                    ∙ ap (unless_stale lib cfg now) (h.client key);
                cleaned_at = refl;
              })
        | inr early ↦
            rw (sym h.cleaned_at, early)
              (record { separate = h.separate; client = h.client; cleaned_at = refl })
      ]

  view_of-append :
      (heap : List lib.Limiter) (fresh : lib.Limiter) (found : Option LimiterEntry)
      → ((entry : LimiterEntry) → found ≡ some entry → entry.limiter < length heap)
      → view_of lib (heap ++ fresh ∷ []) found ≡ view_of lib heap found
  view_of-append heap fresh none h = refl
  view_of-append heap fresh (some entry) h =
      ap (with_seen lib entry.last_seen)
        (limiter_at-append lib entry.limiter heap fresh (h entry refl))

  found_or_new-view :
      (now : ℕ) (key other : Bytes) (found : Option LimiterEntry) (state : ServerState lib)
      → IsSeparate lib state
      → find_entry key state.limiters ≡ found
      → view lib (found_or_new lib cfg now key found state).1 other ≡ (
          if equal other key
          then some (limiter_of lib cfg (view lib state key), now)
          else view lib state other)
  unfolding found_or_new find_entry
  found_or_new-view now key other (some entry) state h e = elim (Bool-cases (equal other key)) [
    | inl same ↦
        let (limiter, held) =
          limiter_at-some lib entry.limiter state.heap
            (find_entry-lt key (length state.heap) state.limiters entry h.separate e) in
        rw
          (
            same,
            (equal_iff other key).0 same,
            find_entry-touch_entry key now state.limiters entry e,
            e,
            held,
          )
          refl
    | inr ne ↦ rw (ne, find_entry-touch_ne other key now state.limiters ne) refl
  ]
  found_or_new-view now key other none state h e = elim (Bool-cases (equal other key)) [
    | inl same ↦
        let fresh = lib.new_limiter cfg.limiter_rate cfg.limiter_burst in
        let self = (equal_iff key key).1 refl in
        rw ((equal_iff other key).0 same, self, limiter_at-length lib state.heap fresh, e) refl
    | inr ne ↦ rw ne (
        view_of-append state.heap _ (find_entry other state.limiters) λ entry found.
          find_entry-lt other (length state.heap) state.limiters entry h.separate found)
  ]

  -- One request of a client, in the state and among the clients.
  abbrev pub admitted : ℕ → ℕ → Bytes → ServerState lib → Bool × ServerState lib
  admitted now later key state =
      let got = limiter_for lib cfg now key state in ask_limiter lib later got.0 got.1

  limiter_for-view :
      (now : ℕ) (key other : Bytes) (state : ServerState lib) (clients : Clients lib)
      → Shows lib state clients
      → view lib (limiter_for lib cfg now key state).1 other ≡ (
          if equal other key
          then some (limiter_of lib cfg ((forget lib cfg now clients).client key), now)
          else (forget lib cfg now clients).client other)
  unfolding limiter_for
  limiter_for-view now key other state clients h =
      let shown = cleaned-Shows now state clients h in
      found_or_new-view now key other _ (cleaned lib cfg now state) shown.separate refl
      ∙ ap
          (λ client.
            if equal other key
            then some (limiter_of lib cfg client, now)
            else view lib (cleaned lib cfg now state) other)
          (shown.client key)
      ∙ ap
          (λ client.
            if equal other key
            then some (limiter_of lib cfg ((forget lib cfg now clients).client key), now)
            else client)
          (shown.client other)

  with_seen-some :
      (seen : ℕ) (held : Option lib.Limiter) (limiter : lib.Limiter)
      → with_seen lib seen held ≡ some (limiter, seen)
      → held ≡ some limiter
  with_seen-some seen none limiter e = cc
  with_seen-some seen (some l) limiter e = cc

  limiter_for-held :
      (now : ℕ) (key : Bytes) (state : ServerState lib) (clients : Clients lib)
      → Shows lib state clients
      → limiter_at lib
          (limiter_for lib cfg now key state).0
          (limiter_for lib cfg now key state).1.heap
        ≡ some (limiter_of lib cfg ((forget lib cfg now clients).client key))
  limiter_for-held now key state clients h =
      let shown = limiter_for-view now key key state clients h in
      let self = (equal_iff key key).1 refl in
      let found = limiter_for-find_entry lib cfg now key state in
      with_seen-some now _ _ (rw (found, self) at shown)

  limiter_for-cleaned_at :
      (now : ℕ) (key : Bytes) (state : ServerState lib)
      → (limiter_for lib cfg now key state).1.last_limiter_cleanup
        ≡ (cleaned lib cfg now state).last_limiter_cleanup
  unfolding limiter_for
  limiter_for-cleaned_at now key state = go (find_entry key (cleaned lib cfg now state).limiters)
    where
      go :
          (found : Option LimiterEntry)
          → (found_or_new lib cfg now key found (cleaned lib cfg now state)).1.last_limiter_cleanup
            ≡ (cleaned lib cfg now state).last_limiter_cleanup
      go none = unfold found_or_new in refl
      go (some entry) = unfold found_or_new in refl

  admitted-admit :
      (now later : ℕ) (key : Bytes) (state : ServerState lib) (clients : Clients lib)
      → Shows lib state clients
      → (admitted now later key state).0 ≡ (admit lib cfg now later key clients).0
  unfolding ask_limiter
  admitted-admit now later key state clients h =
      (allow_at_self lib later _ _ _ (limiter_for-held now key state clients h)).0

  admitted-Shows :
      (now later : ℕ) (key : Bytes) (state : ServerState lib) (clients : Clients lib)
      → Shows lib state clients
      → Shows lib (admitted now later key state).1 (admit lib cfg now later key clients).1
  admitted-Shows now later key state clients h =
      let got = limiter_for lib cfg now key state in
      let separate = limiter_for-IsSeparate lib cfg now key state h.separate in
      record {
        separate = ask_limiter-IsSeparate lib later got.0 got.1 separate;
        client = λ other.
            ask_limiter-view lib later key other (entry_of got.0 now) _ got.1 separate
              (limiter_for-find_entry lib cfg now key state)
              (limiter_for-held now key state clients h)
            ∙ elim (Bool-cases (equal other key)) [
              | inl same ↦ rw same refl
              | inr ne ↦ rw ne (rw ne at (limiter_for-view now key other state clients h))
            ];
        cleaned_at =
            unfold ask_limiter in
            (limiter_for-cleaned_at now key state ∙ (cleaned-Shows now state clients h).cleaned_at);
      }

  -- The answers to a sequence of requests.
  abbrev pub admitted_all : List (ℕ × ℕ × Bytes) → ServerState lib → List Bool
  admitted_all [] state = []
  admitted_all ((now, later, key) ∷ calls) state =
      let r = admitted now later key state in r.0 ∷ admitted_all calls r.1

  Shows-admitted_all :
      (calls : List (ℕ × ℕ × Bytes)) (state : ServerState lib) (clients : Clients lib)
      → Shows lib state clients
      → admitted_all calls state ≡ admit_all lib cfg calls clients
  Shows-admitted_all [] state clients h = refl
  Shows-admitted_all ((now, later, key) ∷ calls) state clients h =
      let rest =
        Shows-admitted_all calls (admitted now later key state).1
          (admit lib cfg now later key clients).1 (admitted-Shows now later key state clients h) in
      let first = admitted-admit now later key state clients h in rw (first, rest) refl

  -- From the start on, the map, its clean-up and the shared limiters answer each request as separate
  -- clients would, of which each has a limiter of its own until it was not seen for too long.
  pub admitted_all-admit_all :
      (start : ℕ) (calls : List (ℕ × ℕ × Bytes))
      → admitted_all calls (new_state lib start) ≡ admit_all lib cfg calls (no_clients lib start)
  admitted_all-admit_all start calls =
      Shows-admitted_all calls (new_state lib start) (no_clients lib start) (
        unfold new_state find_entry in
        record { separate = record { separate = tt }; client = λ key. refl; cleaned_at = refl })
