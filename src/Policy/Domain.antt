-- ===== src/Policy/Domain.antt =====
-- backend/internal/policy/domain.go: what the service accepts as a domain name and a query type.
pub mod Valid
pub mod Accepts
pub mod Tests
use dnswatcher.Prelude.{
  ℕ, Bool, true, false, not, ◌&&◌, ◌||◌, List, [], ◌∷◌, ◌++◌, ltb, ◌==◌, if◌then◌else◌, length, any,
  all, Bytes, codes, equal, contains,
}
use dnswatcher.Strings.{
  Unicode, within, ends_with, trim_suffix, split, to_lower, to_upper, trim_space, valid_string,
}

pub data PolicyError : Type 0 where
  invalid_domain unsupported_qtype special_use_domain ip_literal_domain : PolicyError
  domain_too_many_labels : PolicyError

pub data Result : Type 0 where
  ok : Bytes → Result
  err : PolicyError → Result

abbrev pub supported_qtypes : List Bytes
supported_qtypes = codes "A" ∷ codes "AAAA" ∷ codes "NS" ∷ []

abbrev pub blocked_domains : List Bytes
blocked_domains =
    codes "localhost" ∷ codes "local" ∷ codes "home.arpa" ∷ codes "invalid" ∷ codes "test" ∷ []

-- The last rune test of the label loop.
unfoldable pub is_label_byte : ℕ → Bool
is_label_byte c = within b'a' b'z' c || within b'0' b'9' c || c == b'-'

abbrev pub first_is_dash : Bytes → Bool
first_is_dash [] = false
first_is_dash (c ∷ _) = c == b'-'

abbrev pub last_is_dash : Bytes → Bool
last_is_dash [] = false
last_is_dash (c ∷ []) = c == b'-'
last_is_dash (c ∷ d ∷ s) = last_is_dash (d ∷ s)

-- One round of the loop over the labels: true if it goes on to the next label.
unfoldable pub label_ok : Bytes → Bool
label_ok label =
    if equal label [] || ltb 63 (length label)
    then false
    else if first_is_dash label || last_is_dash label
    then false
    else all is_label_byte label

unfoldable pub is_blocked : Bytes → Bool
is_blocked domain =
    any (λ blocked. equal domain blocked || ends_with domain (codes "." ++ blocked)) blocked_domains

unfoldable pub is_reverse_zone : Bytes → Bool
is_reverse_zone domain =
    if ends_with domain (codes ".arpa")
    then ends_with domain (codes ".in-addr.arpa") || ends_with domain (codes ".ip6.arpa")
    else false

-- `netip.ParseAddr` succeeds with a valid address.
module _ (unicode : Unicode) (is_ip_literal : Bytes → Bool) where
  -- The checks of `NormalizeDomain`, on the lowered and trimmed domain.
  unfoldable pub check_domain : Bytes → Result
  check_domain domain =
      if equal domain []
      then err invalid_domain
      else if not (valid_string unicode domain)
      then err invalid_domain
      else if any (λ r. ltb 127 r) domain
      then err invalid_domain
      else if is_ip_literal domain
      then err ip_literal_domain
      else if ltb 20 (length (split domain b'.'))
      then err domain_too_many_labels
      else if ltb 253 (length domain)
      then err invalid_domain
      else if not (all label_ok (split domain b'.'))
      then err invalid_domain
      else if is_blocked domain
      then err special_use_domain
      else if is_reverse_zone domain
      then err special_use_domain
      else ok domain

  unfoldable pub normalize_domain : Bytes → Result
  unfolding check_domain
  normalize_domain input =
      check_domain (trim_suffix (to_lower unicode (trim_space unicode input)) (codes "."))

unfoldable pub normalize_qtype : Unicode → Bytes → Result
normalize_qtype unicode input =
    let qtype = to_upper unicode (trim_space unicode input) in
    if not (contains qtype supported_qtypes) then err unsupported_qtype else ok qtype
