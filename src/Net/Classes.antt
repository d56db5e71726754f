-- ===== src/Net/Classes.antt =====
-- The classes of an address in Go's `net/netip`. All of them but `IsUnspecified` judge an
-- IPv4-mapped address as its IPv4 address.
use dnswatcher.Prelude.{◌/◌, Bool, false, not, ◌&&◌, ◌||◌, ◌==◌, is_nil}
use dnswatcher.Net.{Addr, no_addr, v4, v6, unmap}

unfoldable pub is_unspecified : Addr → Bool
is_unspecified no_addr = false
is_unspecified (v4 value) = value == 0
is_unspecified (v6 value zone) = value == 0 && is_nil zone

abbrev pub loopback : Addr → Bool
loopback no_addr = false
loopback (v4 value) = value / 0x1000000 == 127
loopback (v6 value zone) = value == 1

abbrev pub multicast : Addr → Bool
multicast no_addr = false
multicast (v4 value) = value / 0x10000000 == 0xe
multicast (v6 value zone) = value / 0x1000000000000000000000000000000 == 0xff

abbrev pub link_local_unicast : Addr → Bool
link_local_unicast no_addr = false
link_local_unicast (v4 value) = value / 0x10000 == 0xa9fe
link_local_unicast (v6 value zone) = value / 0x400000000000000000000000000000 == 0x3fa

abbrev pub private_use : Addr → Bool
private_use no_addr = false
private_use (v4 value) =
    value / 0x1000000 == 10 || value / 0x100000 == 0xac1 || value / 0x10000 == 0xc0a8
private_use (v6 value zone) = value / 0x2000000000000000000000000000000 == 0x7e

abbrev pub broadcast : Addr → Bool
broadcast (v4 value) = value == 0xffffffff
broadcast _ = false

abbrev pub valid_unicast : Addr → Bool
valid_unicast no_addr = false
valid_unicast addr = not (
    is_unspecified addr
    || broadcast addr
    || loopback addr
    || multicast addr
    || link_local_unicast addr)

unfoldable pub is_loopback : Addr → Bool
is_loopback addr = loopback (unmap addr)

unfoldable pub is_multicast : Addr → Bool
is_multicast addr = multicast (unmap addr)

unfoldable pub is_link_local_unicast : Addr → Bool
is_link_local_unicast addr = link_local_unicast (unmap addr)

unfoldable pub is_private : Addr → Bool
is_private addr = private_use (unmap addr)

unfoldable pub is_global_unicast : Addr → Bool
is_global_unicast addr = valid_unicast (unmap addr)
