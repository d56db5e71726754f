-- ===== src/Policy/Domain/Accepts.antt =====
-- `NormalizeDomain` and `NormalizeQType` against the description of what they accept.
use dnswatcher.Prelude.{
  ℕ, ◌≡◌, refl, Bool, true, false, ◌⊎◌, List, [], ◌∷◌, ◌++◌, arith, ltb, All, Bytes, codes, equal,
  equal_iff, all-All, All-all, not_any-All, Bool-cases, inl, inr, contains,
}
use dnswatcher.Strings.{
  Unicode, ends_with, trim_suffix, split, lower_byte, is_space, is_ascii, to_upper, upper_byte,
  trim_space, trim_left, trim_right,
}
use dnswatcher.Strings.Case.{
  IsSettled, to_lower_of_IsSettled, trim_space_of_IsSettled, valid_string_of_IsSettled,
}
use dnswatcher.Strings.Split.{All-of_split, split_last, ends_with-front}
use dnswatcher.Policy.Domain.{
  ok, label_ok, check_domain, normalize_domain, supported_qtypes, normalize_qtype,
}
use dnswatcher.Policy.Domain.Valid.{
  IsLabelByte, IsLabel, IsDomain, label_ok-IsLabel, IsLabel-label_ok, is_blocked-IsPublic,
}

-- A byte of an accepted name.
abbrev IsNameByte : ℕ → Type 0
IsNameByte c = IsSettled c × (ltb 127 c ≡ false)

IsLabelByte-IsNameByte : (c : ℕ) → IsLabelByte c → IsNameByte c
unfolding lower_byte is_space
IsLabelByte-IsNameByte c h =
    (record { ascii = ground arith; lower = ground arith; solid = ground arith }, ground arith)

dot-IsNameByte : IsNameByte b'.'
unfolding lower_byte is_space
dot-IsNameByte = (record { ascii = refl; lower = refl; solid = refl }, refl)

All-map {ℓ κ μ} :
    {A : Type ℓ} (P : A → Type κ) (Q : A → Type μ)
    → ((a : A) → P a → Q a)
    → (xs : List A) → All P xs
    → All Q xs
All-map P Q f [] h = tt
All-map P Q f (x ∷ xs) (h, hs) = (f x h, All-map P Q f xs hs)

labels-IsNameByte : (domain : Bytes) → All IsLabel (split domain b'.') → All IsNameByte domain
labels-IsNameByte domain h =
    All-of_split IsNameByte domain b'.' dot-IsNameByte (
      All-map IsLabel _ (λ l k. All-map _ _ IsLabelByte-IsNameByte l k.bytes) (split domain b'.') h)

labels-IsSettled : (domain : Bytes) → All IsLabel (split domain b'.') → All IsSettled domain
labels-IsSettled domain h =
    All-map IsNameByte IsSettled (λ c k. k.0) domain (labels-IsNameByte domain h)

last-ne-nil : (ps : List Bytes) → ¬ (All IsLabel (ps ++ [] ∷ []))
last-ne-nil [] (h, _) = h.ne_nil refl
last-ne-nil (p ∷ ps) (_, h) = last-ne-nil ps h

-- A name whose last label is not empty has no final dot.
labels-no_dot :
    (domain : Bytes) → All IsLabel (split domain b'.') → ends_with domain (codes ".") ≡ false
labels-no_dot domain h = elim (Bool-cases (ends_with domain (codes "."))) [
  | inl dotted ↦
      let (front, e) = ends_with-front domain (codes ".") dotted in
      absurd (last-ne-nil (split front b'.') (rw (e, split_last front b'.') at h))
  | inr good ↦ good
]

module _ (unicode : Unicode) (is_ip_literal : Bytes → Bool) where
  check_domain-IsDomain :
      (domain : Bytes) {d : Bytes}
      → check_domain unicode is_ip_literal domain ≡ ok d
      → IsDomain is_ip_literal domain × (d ≡ domain)
  unfolding check_domain
  check_domain-IsDomain domain {d} h = (
    record {
      ne_nil = λ e. ground (arith, equal_iff domain []);
      not_literal = ground arith;
      few_labels = ground arith;
      short = ground arith;
      labels = All-all _ label_ok label_ok-IsLabel (split domain b'.') (ground arith);
      is_public = (is_blocked-IsPublic domain).0 (ground arith, ground arith);
    },
    ground arith,
  )

  IsDomain-check_domain :
      (domain : Bytes)
      → IsDomain is_ip_literal domain
      → check_domain unicode is_ip_literal domain ≡ ok domain
  unfolding check_domain
  IsDomain-check_domain domain h = ground (
    arith,
    equal_iff domain [],
    valid_string_of_IsSettled unicode domain (labels-IsSettled domain h.labels),
    not_any-All _ (λ r. ltb 127 r) (λ c k. k.1) domain (labels-IsNameByte domain h.labels),
    all-All _ label_ok IsLabel-label_ok (split domain b'.') h.labels,
    (is_blocked-IsPublic domain).1 h.is_public,
  )

  -- Whatever `NormalizeDomain` returns, from any input and under any Unicode tables, is a domain
  -- name of the description.
  pub normalize_domain-IsDomain :
      (input : Bytes) {domain : Bytes}
      → normalize_domain unicode is_ip_literal input ≡ ok domain
      → IsDomain is_ip_literal domain
  unfolding normalize_domain
  normalize_domain-IsDomain input h = let (valid, e) = check_domain-IsDomain _ h in rw e valid

  -- A name of the description is accepted, and returned as it is.
  pub normalize_domain_of_IsDomain :
      (domain : Bytes)
      → IsDomain is_ip_literal domain
      → normalize_domain unicode is_ip_literal domain ≡ ok domain
  unfolding normalize_domain trim_suffix
  normalize_domain_of_IsDomain domain h =
      let settled = labels-IsSettled domain h.labels in
      rw
        (
          trim_space_of_IsSettled unicode domain settled,
          to_lower_of_IsSettled unicode domain settled,
          labels-no_dot domain h.labels,
        )
        (IsDomain-check_domain domain h)

abbrev pub IsSupported : Bytes → Type 0
IsSupported qtype = (qtype ≡ codes "A") ⊎ ((qtype ≡ codes "AAAA") ⊎ (qtype ≡ codes "NS"))

contains-IsSupported : (qtype : Bytes) → contains qtype supported_qtypes ≡ true → IsSupported qtype
unfolding contains
contains-IsSupported qtype h = ground (
  arith,
  equal_iff (codes "A") qtype,
  equal_iff (codes "AAAA") qtype,
  equal_iff (codes "NS") qtype,
)

normalize_qtype_of_IsSupported :
    (unicode : Unicode) (qtype : Bytes)
    → IsSupported qtype
    → normalize_qtype unicode qtype ≡ ok qtype
unfolding normalize_qtype contains to_upper upper_byte trim_space trim_left trim_right is_ascii
    is_space equal
normalize_qtype_of_IsSupported unicode qtype (inl e) = rw e refl
normalize_qtype_of_IsSupported unicode qtype (inr (inl e)) = rw e refl
normalize_qtype_of_IsSupported unicode qtype (inr (inr e)) = rw e refl

-- Whatever `NormalizeQType` returns is one of the three supported types, and normalizing it again
-- returns it unchanged.
pub normalize_qtype-IsSupported :
    (unicode : Unicode) (input : Bytes) {qtype : Bytes}
    → normalize_qtype unicode input ≡ ok qtype
    → IsSupported qtype × (normalize_qtype unicode qtype ≡ ok qtype)
unfolding normalize_qtype
normalize_qtype-IsSupported unicode input {qtype} h =
    let supported : IsSupported qtype =
      ground (arith, contains-IsSupported (to_upper unicode (trim_space unicode input))) in
    (supported, unfold normalize_qtype in normalize_qtype_of_IsSupported unicode qtype supported)
