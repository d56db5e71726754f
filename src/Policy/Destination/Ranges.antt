-- ===== src/Policy/Destination/Ranges.antt =====
-- The destination policy against ranges of addresses.
use dnswatcher.Prelude.{
  ℕ, ◌/◌, ◌%◌, ◌^◌, ◌≡◌, ◌≢◌, ◌<◌, ◌↔◌, ◌⊎◌, refl, inl, inr, true, false, List, [], ◌∷◌, some, All,
  Bytes, arith, Option-cases,
}
use dnswatcher.Net.{Addr, no_addr, v4, v6, Texts, prefix_contains, covers, unmap}
use dnswatcher.Net.Classes.{
  is_unspecified, is_loopback, is_multicast, is_link_local_unicast, is_private, is_global_unicast,
}
use dnswatcher.Policy.Destination.{is_special, in_blocked_prefix, allow_addr, allow_public}

-- The first and the last number of a range.
abbrev pub Range : Type 0
Range = ℕ × ℕ

abbrev pub IsOutside : ℕ → Range → Type 0
IsOutside value (first, last) = (value < first) ⊎ (last < value)

abbrev pub IsClear : ℕ → List Range → Type 0
IsClear value ranges = All (IsOutside value) ranges

-- The IPv4 classes: unspecified, private use, loopback, link local, multicast, broadcast.
abbrev pub v4_classes : List Range
v4_classes =
    (0, 0)
    ∷ (0x0a000000, 0x0affffff)
    ∷ (0x7f000000, 0x7fffffff)
    ∷ (0xa9fe0000, 0xa9feffff)
    ∷ (0xac100000, 0xac1fffff)
    ∷ (0xc0a80000, 0xc0a8ffff)
    ∷ (0xe0000000, 0xefffffff)
    ∷ (0xffffffff, 0xffffffff)
    ∷ []

-- Shared address space, protocol assignments, documentation, benchmarks, reserved.
abbrev pub v4_assigned : List Range
v4_assigned =
    (0x64400000, 0x647fffff)
    ∷ (0xc0000000, 0xc00000ff)
    ∷ (0xc0000200, 0xc00002ff)
    ∷ (0xc6120000, 0xc613ffff)
    ∷ (0xc6336400, 0xc63364ff)
    ∷ (0xcb007100, 0xcb0071ff)
    ∷ (0xf0000000, 0xffffffff)
    ∷ []

abbrev pub v6_classes : List Range
v6_classes =
    (1, 1)
    ∷ (0xfc000000000000000000000000000000, 0xfdffffffffffffffffffffffffffffff)
    ∷ (0xfe800000000000000000000000000000, 0xfebfffffffffffffffffffffffffffff)
    ∷ (0xff000000000000000000000000000000, 0xffffffffffffffffffffffffffffffff)
    ∷ []

abbrev pub v6_assigned : List Range
v6_assigned = (0, 0) ∷ (0x20010db8000000000000000000000000, 0x20010db8ffffffffffffffffffffffff) ∷ []

-- The addresses that the policy allows. An IPv4-mapped address is only judged by its class, and
-- one with a zone is not held against the prefixes.
abbrev pub IsPublic : Addr → Type 0
IsPublic no_addr = ⊥
IsPublic (v4 value) = IsClear value v4_classes × IsClear value v4_assigned
IsPublic (v6 value zone) =
    ((value / 2 ^ 32 ≡ 0xffff) × IsClear (value % 2 ^ 32) v4_classes)
    ⊎ ((value / 2 ^ 32 ≢ 0xffff)
        × IsClear value v6_classes
        × ((zone ≡ []) → IsClear value v6_assigned))

is_special_v4 : (value : ℕ) → (is_special (v4 value) ≡ false) ↔ IsClear value v4_classes
unfolding is_special is_unspecified is_loopback is_multicast is_link_local_unicast is_private
    is_global_unicast unmap
is_special_v4 value = ground arith

in_blocked_prefix_v4 :
    (value : ℕ)
    → IsClear value v4_classes
    → (in_blocked_prefix (v4 value) ≡ false) ↔ IsClear value v4_assigned
unfolding in_blocked_prefix prefix_contains covers
in_blocked_prefix_v4 value = ground arith

is_special_mapped :
    (value : ℕ) (zone : Bytes)
    → value / 2 ^ 32 ≡ 0xffff
    → (is_special (v6 value zone) ≡ false) ↔ IsClear (value % 2 ^ 32) v4_classes
unfolding is_special is_unspecified is_loopback is_multicast is_link_local_unicast is_private
    is_global_unicast unmap
is_special_mapped value zone mapped = ground arith

in_blocked_prefix_mapped :
    (value : ℕ) (zone : Bytes) → value / 2 ^ 32 ≡ 0xffff → in_blocked_prefix (v6 value zone) ≡ false
unfolding in_blocked_prefix prefix_contains covers
in_blocked_prefix_mapped value zone mapped = ground arith

is_special_v6 :
    (value : ℕ) (zone : Bytes)
    → value / 2 ^ 32 ≢ 0xffff
    → (is_special (v6 value zone) ≡ false) ↔ (IsClear value v6_classes × ((zone ≡ []) → value ≢ 0))
unfolding is_special is_unspecified is_loopback is_multicast is_link_local_unicast is_private
    is_global_unicast unmap
is_special_v6 value [] = ground arith
is_special_v6 value (c ∷ zone) = ground arith

in_blocked_prefix_zone :
    (value c : ℕ) (zone : Bytes) → in_blocked_prefix (v6 value (c ∷ zone)) ≡ false
unfolding in_blocked_prefix prefix_contains covers
in_blocked_prefix_zone value c zone = refl

in_blocked_prefix_v6 :
    (value : ℕ)
    → IsClear value v6_classes
    → (in_blocked_prefix (v6 value []) ≡ false) ↔ IsClear value v6_assigned
unfolding in_blocked_prefix prefix_contains covers
in_blocked_prefix_v6 value = ground arith

-- What the two tests decide, as the conditional of `Allow` joins them.
allow_addr_of :
    {P Q : Type 0} (addr : Addr)
    → (is_special addr ≡ false) ↔ P
    → (P → (in_blocked_prefix addr ≡ false) ↔ Q)
    → (allow_addr (some addr) ≡ true) ↔ (P × Q)
unfolding allow_addr
allow_addr_of addr (special, ordinary) listed = (
  λ h.
      let plain : is_special addr ≡ false = ground arith in
      let unlisted : in_blocked_prefix addr ≡ false = ground arith in
      (special plain, (listed (special plain)).0 unlisted),
  λ (p, q). let plain = ordinary p in let unlisted = (listed p).1 q in rw (plain, unlisted),
)

mapped-IsPublic :
    (value : ℕ) (zone : Bytes)
    → value / 2 ^ 32 ≡ 0xffff
    → (allow_addr (some (v6 value zone)) ≡ true) ↔ IsPublic (v6 value zone)
mapped-IsPublic value zone mapped =
    let (forth, back) =
      allow_addr_of (v6 value zone) (is_special_mapped value zone mapped)
        (λ _. (λ _. tt, λ _. in_blocked_prefix_mapped value zone mapped)) in
    (
      λ h. inl (mapped, (forth h).0),
      λ h. elim h [ inl (_, clear) ↦ back (clear, tt) | inr (other, _, _) ↦ absurd (other mapped) ],
    )

v6-IsPublic :
    (value : ℕ) (zone : Bytes)
    → value / 2 ^ 32 ≢ 0xffff
    → (allow_addr (some (v6 value zone)) ≡ true) ↔ IsPublic (v6 value zone)
v6-IsPublic value [] other =
    let (forth, back) =
      allow_addr_of (v6 value []) (is_special_v6 value [] other)
        (λ (clear, _). in_blocked_prefix_v6 value clear) in
    (
      λ h. let ((clear, _), unassigned) = forth h in inr (other, clear, λ _. unassigned),
      λ h. elim h [
        | inl (mapped, _) ↦ absurd (other mapped)
        | inr (_, clear, unassigned) ↦
            back ((clear, λ _ zero. let (out, _) = unassigned refl in omega arith), unassigned refl)
      ],
    )
v6-IsPublic value (c ∷ zone) other =
    let (forth, back) =
      allow_addr_of (v6 value (c ∷ zone)) (is_special_v6 value (c ∷ zone) other)
        (λ _. (λ _. tt, λ _. in_blocked_prefix_zone value c zone)) in
    (
      λ h. let ((clear, _), _) = forth h in inr (other, clear, λ zoned. cc),
      λ h. elim h [
        | inl (mapped, _) ↦ absurd (other mapped)
        | inr (_, clear, _) ↦ back ((clear, λ zoned. cc), tt)
      ],
    )

mapped_cases : (value : ℕ) → (value / 2 ^ 32 ≡ 0xffff) ⊎ (value / 2 ^ 32 ≢ 0xffff)
mapped_cases value = ground arith

allow_addr-IsPublic : (addr : Addr) → (allow_addr (some addr) ≡ true) ↔ IsPublic addr
allow_addr-IsPublic no_addr =
    unfold allow_addr is_special is_global_unicast unmap in (λ h. cc, λ h. absurd h)
allow_addr-IsPublic (v4 value) =
    allow_addr_of (v4 value) (is_special_v4 value) (in_blocked_prefix_v4 value)
allow_addr-IsPublic (v6 value zone) = elim (mapped_cases value) [
  | inl mapped ↦ mapped-IsPublic value zone mapped
  | inr other ↦ v6-IsPublic value zone other
]

-- `PublicIPPolicy.Allow` allows exactly the texts of an address outside the special-use ranges:
-- for IPv4, all of those listed; for an IPv4-mapped address, only the ranges of the IPv4 classes;
-- for IPv6, those of the classes and, if it has no zone, the zero and the documentation range.
pub allow_public-IsPublic :
    (texts : Texts) (ip : Bytes)
    → (allow_public texts ip ≡ true)
      ↔ ((addr : Addr) × (texts.parse_addr ip ≡ some addr) × IsPublic addr)
unfolding allow_public
allow_public-IsPublic texts ip = elim (Option-cases (texts.parse_addr ip)) [
  | inl failed ↦
      (λ h. let refused = rw failed at h in unfold allow_addr in cc, λ (addr, parsed, _). cc)
  | inr (addr, parsed) ↦ (
    λ h. (addr, parsed, (allow_addr-IsPublic addr).0 (rw parsed at h)),
    λ (other, same, public).
        let equal : other ≡ addr = cc in rw same ((allow_addr-IsPublic other).1 public),
  )
]
