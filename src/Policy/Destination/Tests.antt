-- ===== src/Policy/Destination/Tests.antt =====
-- Runs of the destination policy, and its theorem at an input.
use dnswatcher.Prelude.{◌≡◌, refl, ◌↔◌, [], true, false, none, some, if◌then◌else◌, codes, equal}
use dnswatcher.Net.{Addr, v4, v6, Texts}
use dnswatcher.Policy.Destination.{allow_addr, allow_public}
use dnswatcher.Policy.Destination.Ranges.{IsPublic, allow_public-IsPublic}
use dnswatcher.Net.{unmap, prefix_contains, covers}
use dnswatcher.Net.Classes.{
  is_unspecified, is_loopback, is_multicast, is_link_local_unicast, is_private, is_global_unicast,
}
use dnswatcher.Policy.Destination.{is_special, in_blocked_prefix}

abbrev texts : Texts
texts = record {
  parse_addr = λ s.
      if equal s (codes "9.9.9.9")
      then some (v4 0x09090909)
      else if equal s (codes "10.0.0.1")
      then some (v4 0x0a000001)
      else none;
  parse_prefix = λ _. none;
  addr_string = λ _. codes "9.9.9.9";
  split_host = λ _. none;
}

-- A public address, a private one, a text that is no address.
allow_public_tests :
    (allow_public texts (codes "9.9.9.9") ≡ true)
    × (allow_public texts (codes "10.0.0.1") ≡ false)
    × (allow_public texts (codes "example") ≡ false)
unfolding allow_public allow_addr is_special in_blocked_prefix is_unspecified is_loopback
    is_multicast is_link_local_unicast is_private is_global_unicast unmap prefix_contains covers
    equal
allow_public_tests = (refl, refl, refl)

-- 100.64.0.1, ::ffff:100.64.0.1, ::1%eth0 and ::%eth0.
allow_addr_tests :
    (allow_addr (some (v4 0x64400001)) ≡ false)
    × (allow_addr (some (v6 0xffff64400001 [])) ≡ true)
    × (allow_addr (some (v6 1 (codes "eth0"))) ≡ false)
    × (allow_addr (some (v6 0 (codes "eth0"))) ≡ true)
unfolding allow_addr is_special in_blocked_prefix is_unspecified is_loopback is_multicast
    is_link_local_unicast is_private is_global_unicast unmap prefix_contains covers
allow_addr_tests = (refl, refl, refl, refl)

allow_public-IsPublic_example :
    (allow_public texts (codes "9.9.9.9") ≡ true)
    ↔ ((addr : Addr) × (texts.parse_addr (codes "9.9.9.9") ≡ some addr) × IsPublic addr)
allow_public-IsPublic_example = allow_public-IsPublic texts (codes "9.9.9.9")
