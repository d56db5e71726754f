-- ===== src/Policy/Domain/Tests.antt =====
-- Runs of the domain policy, among them those of policy_test.go, and the theorems at an input.
use dnswatcher.Prelude.{ℕ, ◌≡◌, refl, Bool, false, ◌++◌, Bytes, codes, equal, contains}
use dnswatcher.Strings.{
  Unicode, trim_suffix, ends_with, to_lower, to_upper, is_ascii, trim_space, trim_right, trim_left,
  is_space, lower_byte, upper_byte, valid_string, split,
}
use dnswatcher.Policy.Domain.{
  ok, err, ip_literal_domain, special_use_domain, domain_too_many_labels, invalid_domain,
  normalize_domain, normalize_qtype, label_ok, is_label_byte, is_blocked, is_reverse_zone,
}
use dnswatcher.Policy.Domain.Valid.{IsDomain}
use dnswatcher.Policy.Domain.Accepts.{
  normalize_domain-IsDomain, normalize_domain_of_IsDomain, IsSupported, normalize_qtype-IsSupported,
}

-- What a run of the policy computes with.
policy : Unit {0}
unfolding normalize_domain normalize_qtype contains equal trim_suffix ends_with to_lower to_upper
    is_ascii trim_space trim_right trim_left is_space lower_byte upper_byte valid_string split
    label_ok is_label_byte is_blocked is_reverse_zone
policy = tt

-- Tables that leave every string with a byte beyond ASCII as it is.
abbrev no_tables : Unicode
no_tables = record {
  lower = λ s. s;
  upper = λ s. s;
  trim = λ s. s;
  valid = λ _. false;
  fold = equal;
}

abbrev literals : Bytes → Bool
literals = equal (codes "192.0.2.5")

abbrev dotted_as : ℕ → Bytes
dotted_as ℕ.zero = codes "com"
dotted_as (ℕ.suc n) = codes "a." ++ dotted_as n

normalize_domain_tests :
    (normalize_domain no_tables literals (codes " Example.COM. ") ≡ ok (codes "example.com"))
    × (normalize_domain no_tables literals (codes "192.0.2.5") ≡ err ip_literal_domain)
    × (normalize_domain no_tables literals (codes "router.home.arpa") ≡ err special_use_domain)
    × (normalize_domain no_tables literals (dotted_as 20) ≡ err domain_too_many_labels)
    × (normalize_domain no_tables literals (codes "bad_domain.example.com") ≡ err invalid_domain)
    × (normalize_domain no_tables literals (codes "1.in-addr.arpa") ≡ err special_use_domain)
    × (normalize_domain no_tables literals (codes "-a.com") ≡ err invalid_domain)
unfolding policy
normalize_domain_tests = (refl, refl, refl, refl, refl, refl, refl)

normalize_qtype_tests : normalize_qtype no_tables (codes " aaaa") ≡ ok (codes "AAAA")
unfolding policy
normalize_qtype_tests = refl

normalize_domain-IsDomain_example : IsDomain literals (codes "example.com")
normalize_domain-IsDomain_example =
    normalize_domain-IsDomain no_tables literals (codes " Example.COM. ") normalize_domain_tests.0

normalize_domain_of_IsDomain_example :
    normalize_domain no_tables literals (codes "example.com") ≡ ok (codes "example.com")
normalize_domain_of_IsDomain_example =
    normalize_domain_of_IsDomain no_tables literals (codes "example.com")
      normalize_domain-IsDomain_example

normalize_qtype-IsSupported_example :
    IsSupported (codes "AAAA") × (normalize_qtype no_tables (codes "AAAA") ≡ ok (codes "AAAA"))
normalize_qtype-IsSupported_example =
    normalize_qtype-IsSupported no_tables (codes " aaaa") normalize_qtype_tests
