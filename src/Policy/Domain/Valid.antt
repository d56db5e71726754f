-- ===== src/Policy/Domain/Valid.antt =====
-- The domain names that the policy means to accept, described without its code.
use mathlib.Core.List.{append_assoc}
use dnswatcher.Prelude.{
  ℕ, ◌≡◌, ◌≢◌, refl, ap, ◌≤◌, ◌==◌, ==_iff, ◌↔◌, ◌⊎◌, Bool, true, false, ◌||◌, [], ◌∷◌, ◌++◌, arith,
  length, All, Bytes, codes, equal, equal_iff, all-All, All-all, All-not_any, not_any-All,
  Bool-cases, inl, inr,
}
use dnswatcher.Strings.{ends_with, split}
use dnswatcher.Strings.Split.{ends_with-append, ends_with-front}
use dnswatcher.Policy.Domain.{
  is_label_byte, first_is_dash, last_is_dash, label_ok, blocked_domains, is_blocked,
  is_reverse_zone,
}

-- A lower-case letter, a digit or a dash.
abbrev pub IsLabelByte : ℕ → Type 0
IsLabelByte c = ((b'a' ≤ c) × (c ≤ b'z')) ⊎ ((b'0' ≤ c) × (c ≤ b'9')) ⊎ (c ≡ b'-')

-- A label of one to 63 letters, digits and dashes, with no dash at either end.
pub record IsLabel (label : Bytes) : Type 0 where
  pub ne_nil : label ≢ []
  pub short : length label ≤ 63
  pub bytes : All IsLabelByte label
  pub no_first_dash : (rest : Bytes) → label ≢ b'-' ∷ rest
  pub no_last_dash : (front : Bytes) → label ≢ front ++ b'-' ∷ []

-- `domain` is `zone`, or a name below it.
abbrev pub IsUnder : Bytes → Bytes → Type 0
IsUnder zone domain = ((front : Bytes) × (domain ≡ front ++ (codes "." ++ zone)))

-- The name is not the zone, nor below it.
abbrev pub IsOutside : Bytes → Bytes → Type 0
IsOutside zone domain = (domain ≢ zone) × ¬ (IsUnder zone domain)

-- Special-use names are refused whole, and of the reverse zones the names below them.
pub record IsPublic (domain : Bytes) : Type 0 where
  pub not_localhost : IsOutside (codes "localhost") domain
  pub not_local : IsOutside (codes "local") domain
  pub not_home : IsOutside (codes "home.arpa") domain
  pub not_invalid : IsOutside (codes "invalid") domain
  pub not_test : IsOutside (codes "test") domain
  pub not_in_addr : ¬ (IsUnder (codes "in-addr.arpa") domain)
  pub not_ip6 : ¬ (IsUnder (codes "ip6.arpa") domain)

pub record IsDomain (is_ip_literal : Bytes → Bool) (domain : Bytes) : Type 0 where
  pub ne_nil : domain ≢ []
  pub not_literal : is_ip_literal domain ≡ false
  pub few_labels : length (split domain b'.') ≤ 20
  pub short : length domain ≤ 253
  pub labels : All IsLabel (split domain b'.')
  pub is_public : IsPublic domain

pub is_label_byte_iff : (c : ℕ) → (is_label_byte c ≡ true) ↔ IsLabelByte c
unfolding is_label_byte
is_label_byte_iff c = ground arith

first_is_dash_iff :
    (label : Bytes) → (first_is_dash label ≡ false) ↔ ((rest : Bytes) → label ≢ b'-' ∷ rest)
first_is_dash_iff [] = (λ _ rest. cc, λ _. refl)
first_is_dash_iff (c ∷ label) = (
  λ h rest e. let same : c ≡ b'-' = cc in ground arith,
  λ h. elim (Bool-cases (c == b'-')) [
    | inl dash ↦ absurd (h label (ap (λ d. d ∷ label) ((==_iff c b'-').0 dash)))
    | inr other ↦ other
  ],
)

last_is_dash-snoc : (front : Bytes) → last_is_dash (front ++ b'-' ∷ []) ≡ true
last_is_dash-snoc [] = refl
last_is_dash-snoc (c ∷ []) = refl
last_is_dash-snoc (c ∷ d ∷ front) = last_is_dash-snoc (d ∷ front)

last_is_dash-split :
    (label : Bytes) → last_is_dash label ≡ true → (front : Bytes) × (label ≡ front ++ b'-' ∷ [])
last_is_dash-split [] h = cc
last_is_dash-split (c ∷ []) h = ([], ap (λ d. d ∷ []) ((==_iff c b'-').0 h))
last_is_dash-split (c ∷ d ∷ label) h =
    let (front, e) = last_is_dash-split (d ∷ label) h in (c ∷ front, ap (◌∷◌ c) e)

last_is_dash_iff :
    (label : Bytes) → (last_is_dash label ≡ false) ↔ ((front : Bytes) → label ≢ front ++ b'-' ∷ [])
last_is_dash_iff label = (
  λ h front e. let bad : last_is_dash label ≡ true = rw e (last_is_dash-snoc front) in cc,
  λ h. elim (Bool-cases (last_is_dash label)) [
    | inl dash ↦ let (front, e) = last_is_dash-split label dash in absurd (h front e)
    | inr other ↦ other
  ],
)

pub label_ok-IsLabel : (label : Bytes) → label_ok label ≡ true → IsLabel label
unfolding label_ok
label_ok-IsLabel label h = record {
  ne_nil = λ e. ground (arith, equal_iff label []);
  short = ground arith;
  bytes = All-all _ is_label_byte (λ c. (is_label_byte_iff c).0) label (ground arith);
  no_first_dash = (first_is_dash_iff label).0 (ground arith);
  no_last_dash = (last_is_dash_iff label).0 (ground arith);
}

pub IsLabel-label_ok : (label : Bytes) → IsLabel label → label_ok label ≡ true
unfolding label_ok
IsLabel-label_ok label h = ground (
  arith,
  equal_iff label [],
  (first_is_dash_iff label).1 h.no_first_dash,
  (last_is_dash_iff label).1 h.no_last_dash,
  all-All _ is_label_byte (λ c. (is_label_byte_iff c).1) label h.bytes,
)

ends_with_iff :
    (zone domain : Bytes) → (ends_with domain (codes "." ++ zone) ≡ true) ↔ IsUnder zone domain
ends_with_iff zone domain = (
  ends_with-front domain (codes "." ++ zone),
  λ (front, e). rw e (ends_with-append front (codes "." ++ zone)),
)

not-ends_with :
    (zone domain : Bytes) → ¬ (IsUnder zone domain) → ends_with domain (codes "." ++ zone) ≡ false
not-ends_with zone domain out = elim (Bool-cases (ends_with domain (codes "." ++ zone))) [
  | inl bad ↦ absurd (out ((ends_with_iff zone domain).0 bad))
  | inr good ↦ good
]

is_blocked-one :
    (domain zone : Bytes)
    → ((equal domain zone || ends_with domain (codes "." ++ zone)) ≡ false) ↔ IsOutside zone domain
is_blocked-one domain zone = (
  λ h. (
    λ e. ground (arith, equal_iff domain zone),
    λ u. ground (arith, (ends_with_iff zone domain).1 u),
  ),
  λ (ne, out). ground (
    arith,
    equal_iff domain zone,
    λ (e : ends_with domain (codes "." ++ zone) ≡ true). out ((ends_with_iff zone domain).0 e),
  ),
)

is_blocked_iff :
    (domain : Bytes)
    → (is_blocked domain ≡ false) ↔ All (λ zone. IsOutside zone domain) blocked_domains
unfolding is_blocked
is_blocked_iff domain = (
  All-not_any _ _ (λ zone. (is_blocked-one domain zone).0) blocked_domains,
  not_any-All _ _ (λ zone. (is_blocked-one domain zone).1) blocked_domains,
)

-- A name under a zone whose last label is "arpa" ends with ".arpa".
under_arpa :
    (domain front zone : Bytes)
    → domain ≡ front ++ (zone ++ codes ".arpa")
    → ends_with domain (codes ".arpa") ≡ true
under_arpa domain front zone e =
    rw (e, ← append_assoc front zone (codes ".arpa"))
      (ends_with-append (front ++ zone) (codes ".arpa"))

is_reverse_zone_iff :
    (domain : Bytes)
    → (is_reverse_zone domain ≡ false)
      ↔ (¬ (IsUnder (codes "in-addr.arpa") domain) × ¬ (IsUnder (codes "ip6.arpa") domain))
unfolding is_reverse_zone
is_reverse_zone_iff domain = (
  λ h. (
    λ u. ground (
      arith,
      (ends_with_iff (codes "in-addr.arpa") domain).1 u,
      under_arpa domain u.0 (codes ".in-addr") u.1,
    ),
    λ u. ground (
      arith,
      (ends_with_iff (codes "ip6.arpa") domain).1 u,
      under_arpa domain u.0 (codes ".ip6") u.1,
    ),
  ),
  λ (out4, out6). ground (
    arith,
    not-ends_with (codes "in-addr.arpa") domain out4,
    not-ends_with (codes "ip6.arpa") domain out6,
  ),
)

-- The last two tests together decide whether the name is public.
pub is_blocked-IsPublic :
    (domain : Bytes)
    → ((is_blocked domain ≡ false) × (is_reverse_zone domain ≡ false)) ↔ IsPublic domain
is_blocked-IsPublic domain = (
  λ (b, r).
      let (localhost, (local, (home, (invalid, (test, _))))) = (is_blocked_iff domain).0 b in
      record {
        not_localhost = localhost;
        not_local = local;
        not_home = home;
        not_invalid = invalid;
        not_test = test;
        not_in_addr = ((is_reverse_zone_iff domain).0 r).0;
        not_ip6 = ((is_reverse_zone_iff domain).0 r).1;
      },
  λ p. (
    (is_blocked_iff domain).1
        (p.not_localhost, (p.not_local, (p.not_home, (p.not_invalid, (p.not_test, tt))))),
    (is_reverse_zone_iff domain).1 (p.not_in_addr, p.not_ip6),
  ),
)
