-- ===== src/Strings/Split.antt =====
-- Splitting at a separator, joining, prefixes and suffixes.
use dnswatcher.Prelude.{
  ℕ, ◌≡◌, ◌≢◌, refl, ap, true, List, [], ◌∷◌, ◌++◌, arith, Bytes, equal, equal_iff, ◌==◌, ==_iff,
  All, inl, inr, Bool-cases,
}
use dnswatcher.Strings.{push_head, split, join, ends_with}

push_head-ne-nil : (c : ℕ) (parts : List Bytes) → push_head c parts ≢ []
push_head-ne-nil c [] h = cc
push_head-ne-nil c (p ∷ ps) h = cc

-- A string is a separated list of parts: `split` never returns the empty list.
pub split-ne-nil : (s : Bytes) (sep : ℕ) → split s sep ≢ []
unfolding split
split-ne-nil [] sep h = cc
split-ne-nil (c ∷ s) sep h = ground (arith, push_head-ne-nil c (split s sep))

-- No part holds the separator.
abbrev pub Lacks : ℕ → Bytes → Type 0
Lacks sep = All (λ c. c ≢ sep)

push_head-Lacks :
    (sep c : ℕ) (parts : List Bytes)
    → c ≢ sep
    → All (Lacks sep) parts
    → All (Lacks sep) (push_head c parts)
push_head-Lacks sep c [] h k = ((h, tt), tt)
push_head-Lacks sep c (p ∷ ps) h (k, ks) = ((h, k), ks)

pub split-Lacks : (s : Bytes) (sep : ℕ) → All (Lacks sep) (split s sep)
unfolding split
split-Lacks [] sep = (tt, tt)
split-Lacks (c ∷ s) sep = ground (arith, split-Lacks s sep, push_head-Lacks sep c (split s sep))

join-push_head :
    (c : ℕ) (parts : List Bytes) (sep : Bytes)
    → parts ≢ []
    → join (push_head c parts) sep ≡ c ∷ join parts sep
unfolding join
join-push_head c [] sep ne = absurd (ne refl)
join-push_head c (p ∷ []) sep ne = refl
join-push_head c (p ∷ q ∷ ps) sep ne = refl

join-nil-cons :
    (parts : List Bytes) (sep : Bytes) → parts ≢ [] → join ([] ∷ parts) sep ≡ sep ++ join parts sep
unfolding join
join-nil-cons [] sep ne = absurd (ne refl)
join-nil-cons (p ∷ ps) sep ne = refl

-- Joining what was split gives the string back.
pub join-split : (s : Bytes) (sep : ℕ) → join (split s sep) (sep ∷ []) ≡ s
unfolding split
join-split [] sep = unfold join in refl
join-split (c ∷ s) sep = ground (
  arith,
  join-split s sep,
  join-push_head c (split s sep) (sep ∷ []) (split-ne-nil s sep),
  join-nil-cons (split s sep) (sep ∷ []) (split-ne-nil s sep),
)

-- A string ends with a suffix when it is something followed by the suffix.
pub ends_with-append : (front suffix : Bytes) → ends_with (front ++ suffix) suffix ≡ true
unfolding ends_with equal
ends_with-append [] [] = refl
ends_with-append [] (c ∷ s) = ground (arith, equal_iff (c ∷ s) (c ∷ s))
ends_with-append (d ∷ front) s = ground (arith, ends_with-append front s)

pub ends_with-front :
    (s suffix : Bytes) → ends_with s suffix ≡ true → (front : Bytes) × (s ≡ front ++ suffix)
unfolding ends_with
ends_with-front [] suffix h = ([], (equal_iff [] suffix).0 h)
ends_with-front (c ∷ s) suffix h = elim (Bool-cases (equal (c ∷ s) suffix)) [
  | inl same ↦ ([], (equal_iff _ _).0 same)
  | inr other ↦
      let (front, e) = ends_with-front s suffix (rw other at h) in (c ∷ front, ap (◌∷◌ c) e)
]

push_head-append :
    (c : ℕ) (ps qs : List Bytes) → ps ≢ [] → push_head c (ps ++ qs) ≡ push_head c ps ++ qs
push_head-append c [] qs ne = absurd (ne refl)
push_head-append c (p ∷ ps) qs ne = refl

-- A separator at the end makes one more part, which is empty.
pub split_last : (s : Bytes) (sep : ℕ) → split (s ++ sep ∷ []) sep ≡ split s sep ++ [] ∷ []
unfolding split
split_last [] sep = ground arith
split_last (c ∷ s) sep =
    ground
      (arith, split_last s sep, push_head-append c (split s sep) ([] ∷ []) (split-ne-nil s sep))

module _ {ℓ} (P : ℕ → Type ℓ) where
  All-push_head_rest :
      (c : ℕ) (parts : List Bytes) → All (All P) (push_head c parts) → P c × All (All P) parts
  All-push_head_rest c [] ((h, _), _) = (h, tt)
  All-push_head_rest c (p ∷ ps) ((h, k), ks) = (h, (k, ks))

  -- What holds of every byte of every part and of the separator holds of every byte.
  pub All-of_split : (s : Bytes) (sep : ℕ) → P sep → All (All P) (split s sep) → All P s
  unfolding split
  All-of_split [] sep hs h = tt
  All-of_split (c ∷ s) sep hs h = elim (Bool-cases (c == sep)) [
    | inl same ↦ (rw ((==_iff c sep).0 same) hs, All-of_split s sep hs (rw same at h).1)
    | inr other ↦
        let (here, later) = All-push_head_rest c (split s sep) (rw other at h) in
        (here, All-of_split s sep hs later)
  ]
