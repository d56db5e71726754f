-- ===== src/Policy/Destination.antt =====
-- backend/internal/policy/destination.go: the addresses that the service may query. `true` is a
-- nil error, `false` is ErrBlockedDestination.
pub mod Ranges
pub mod Tests
use dnswatcher.Prelude.{
  ℕ, Bool, true, false, not, ◌&&◌, ◌||◌, List, [], ◌∷◌, Option, none, some, if◌then◌else◌, any,
  Bytes,
}
use dnswatcher.Net.{Addr, v4, v6, Prefix, Texts, prefix_contains}
use dnswatcher.Net.Classes.{
  is_unspecified, is_loopback, is_multicast, is_link_local_unicast, is_private, is_global_unicast,
}

abbrev pub v4_prefix : ℕ → ℕ → Prefix
v4_prefix base bits = record { addr = v4 base; bits = bits }

abbrev pub v6_prefix : ℕ → ℕ → Prefix
v6_prefix base bits = record { addr = v6 base []; bits = bits }

-- `blockedPrefixes`, in its order.
abbrev pub blocked_prefixes : List Prefix
blocked_prefixes =
    v4_prefix 0x0a000000 8
    ∷ v4_prefix 0x64400000 10
    ∷ v4_prefix 0x7f000000 8
    ∷ v4_prefix 0xa9fe0000 16
    ∷ v4_prefix 0xac100000 12
    ∷ v4_prefix 0xc0000000 24
    ∷ v4_prefix 0xc0000200 24
    ∷ v4_prefix 0xc0a80000 16
    ∷ v4_prefix 0xc6120000 15
    ∷ v4_prefix 0xc6336400 24
    ∷ v4_prefix 0xcb007100 24
    ∷ v4_prefix 0xe0000000 4
    ∷ v4_prefix 0xf0000000 4
    ∷ v6_prefix 1 128
    ∷ v6_prefix 0 128
    ∷ v6_prefix 0xfc000000000000000000000000000000 7
    ∷ v6_prefix 0xfe800000000000000000000000000000 10
    ∷ v6_prefix 0xff000000000000000000000000000000 8
    ∷ v6_prefix 0x20010db8000000000000000000000000 32
    ∷ []

-- The first condition on the parsed address.
unfoldable pub is_special : Addr → Bool
is_special addr =
    not (is_global_unicast addr)
    || is_loopback addr
    || is_private addr
    || is_link_local_unicast addr
    || is_multicast addr
    || is_unspecified addr

unfoldable pub in_blocked_prefix : Addr → Bool
in_blocked_prefix addr = any (λ prefix. prefix_contains prefix addr) blocked_prefixes

unfoldable pub allow_addr : Option Addr → Bool
allow_addr none = false
allow_addr (some addr) = if is_special addr then false else not (in_blocked_prefix addr)

-- `PublicIPPolicy.Allow`
unfoldable pub allow_public : Texts → Bytes → Bool
allow_public texts ip = allow_addr (texts.parse_addr ip)

-- `AllowAllPolicy.Allow`
unfoldable pub allow_all : Bytes → Bool
allow_all ip = true
