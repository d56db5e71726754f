-- ===== src/Net.antt =====
-- Addresses and prefixes of Go's `net/netip`, as numbers. Their texts are parameters.
pub mod Classes
pub mod HostPort
use dnswatcher.Prelude.{
  ℕ, ◌-◌, ◌*◌, ◌/◌, ◌%◌, ◌^◌, Bool, true, false, [], Option, leb, ◌==◌, if◌then◌else◌, Bytes,
  is_nil, equal, ◌&&◌,
}

-- The zero `Addr`, an IPv4 address, and an IPv6 address with its zone. An IPv4-mapped address is
-- an IPv6 address.
pub data Addr : Type 0 where
  no_addr : Addr
  v4 : ℕ → Addr
  v6 : ℕ → Bytes → Addr

pub record Prefix : Type 0 where
  pub addr : Addr
  pub bits : ℕ

-- What the program reads and writes as text: `netip.ParseAddr`, `netip.ParsePrefix`,
-- `Addr.String` and the host of `net.SplitHostPort`; `none` is an error.
pub record Texts : Type 0 where
  pub parse_addr : Bytes → Option Addr
  pub parse_prefix : Bytes → Option Prefix
  pub addr_string : Addr → Bytes
  pub split_host : Bytes → Option Bytes

abbrev pub is_valid : Addr → Bool
is_valid no_addr = false
is_valid _ = true

-- The upper 96 bits of ::ffff:0:0/96.
abbrev pub is_mapped : ℕ → Bool
is_mapped value = value / 2 ^ 32 == 0xffff

unfoldable pub is_4_in_6 : Addr → Bool
is_4_in_6 (v6 value zone) = is_mapped value
is_4_in_6 _ = false

unfoldable pub unmap : Addr → Addr
unmap (v6 value zone) = if is_mapped value then v4 (value % 2 ^ 32) else v6 value zone
unmap addr = addr

abbrev pub bit_len : Addr → ℕ
bit_len no_addr = 0
bit_len (v4 _) = 32
bit_len (v6 _ _) = 128

-- `Addr.Compare` gives zero.
unfoldable pub same_addr : Addr → Addr → Bool
same_addr no_addr no_addr = true
same_addr (v4 value) (v4 other) = value == other
same_addr (v6 value zone) (v6 other zone') = value == other && equal zone zone'
same_addr _ _ = false

-- The high `bits` bits of a number of `width` bits, and the number with the others cleared.
abbrev pub high : ℕ → ℕ → ℕ → ℕ
high width bits value = value / 2 ^ (width - bits)

abbrev pub cleared : ℕ → ℕ → ℕ → ℕ
cleared width bits value = high width bits value * 2 ^ (width - bits)

-- `PrefixFrom` drops the zone. A prefix with more bits than its address is not valid, and
-- contains nothing.
unfoldable pub prefix_from : Addr → ℕ → Prefix
prefix_from (v6 value zone) bits = record { addr = v6 value []; bits = bits }
prefix_from addr bits = record { addr = addr; bits = bits }

abbrev pub no_prefix : Prefix
no_prefix = record { addr = no_addr; bits = 0 }

unfoldable pub mask : Addr → ℕ → Prefix
mask no_addr bits = no_prefix
mask (v4 value) bits =
    if leb bits 32 then record { addr = v4 (cleared 32 bits value); bits = bits } else no_prefix
mask (v6 value zone) bits =
    if leb bits 128
    then record { addr = v6 (cleared 128 bits value) []; bits = bits }
    else no_prefix

unfoldable pub masked : Prefix → Prefix
unfolding mask
masked prefix = mask prefix.addr prefix.bits

unfoldable pub covers : ℕ → Addr → Addr → Bool
covers bits (v4 base) (v4 value) =
    if leb bits 32 then high 32 bits value == high 32 bits base else false
covers bits (v6 base _) (v6 value zone) =
    if is_nil zone
    then (if leb bits 128 then high 128 bits value == high 128 bits base else false)
    else false
covers bits _ _ = false

unfoldable pub prefix_contains : Prefix → Addr → Bool
unfolding covers
prefix_contains prefix addr = covers prefix.bits prefix.addr addr
