-- ===== src/Strings/Separated.antt =====
-- Texts that are joined by a byte, and what can be read back from them.
use dnswatcher.Prelude.{ℕ, ◌≡◌, ◌≢◌, refl, sym, [], ◌∷◌, ◌++◌, Bytes, All}

-- The byte does not stand in the text.
abbrev pub Lacks : ℕ → Bytes → Type 0
Lacks sep s = All (λ c. c ≢ sep) s

module _ (sep : ℕ) where
  Lacks-append : (s t : Bytes) → Lacks sep (s ++ sep ∷ t) → ⊥
  Lacks-append [] t (ne, _) = ne refl
  Lacks-append (c ∷ s) t (_, h) = Lacks-append s t h

  -- The first separator is found again if the text before it lacks the byte.
  pub append-eq-first :
      (s s' t t' : Bytes)
      → Lacks sep s
      → Lacks sep s'
      → s ++ sep ∷ t ≡ s' ++ sep ∷ t'
      → (s ≡ s') × (t ≡ t')
  append-eq-first [] [] t t' h h' e = (refl, cc)
  append-eq-first [] (c ∷ s') t t' h (ne, _) e = let same : sep ≡ c = cc in absurd (ne (sym same))
  append-eq-first (c ∷ s) [] t t' (ne, _) h' e = let same : c ≡ sep = cc in absurd (ne same)
  append-eq-first (c ∷ s) (d ∷ s') t t' (_, h) (_, h') e =
      let (front, back) = append-eq-first s s' t t' h h' (cc) in (cc, back)

  -- The last one, if the text behind it does.
  pub append-eq-last :
      (s s' t t' : Bytes)
      → Lacks sep t
      → Lacks sep t'
      → s ++ sep ∷ t ≡ s' ++ sep ∷ t'
      → (s ≡ s') × (t ≡ t')
  append-eq-last [] [] t t' h h' e = (refl, cc)
  append-eq-last [] (c ∷ s') t t' h h' e =
      let tail : t ≡ s' ++ sep ∷ t' = cc in absurd (Lacks-append s' t' (rw tail at h))
  append-eq-last (c ∷ s) [] t t' h h' e =
      let tail : t' ≡ s ++ sep ∷ t = cc in absurd (Lacks-append s t (rw tail at h'))
  append-eq-last (c ∷ s) (d ∷ s') t t' h h' e =
      let (front, back) = append-eq-last s s' t t' h h' (cc) in (cc, back)
