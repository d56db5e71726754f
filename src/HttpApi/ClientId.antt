-- ===== src/HttpApi/ClientId.antt =====
-- backend/internal/httpapi/clientid.go: the rate-limit key of a request, from its peer and its
-- forwarding headers. The syntax of the Forwarded header is in HttpApi/Forwarded.
pub mod Chain
pub mod Spoofing
pub mod Tests
use dnswatcher.Prelude.{
  ℕ, ◌-◌, Bool, true, false, not, ◌&&◌, ◌||◌, List, [], ◌∷◌, ◌++◌, Option, none, some, ltb, ◌==◌,
  if◌then◌else◌, any, is_nil, Bytes, codes, equal, ◌>>=◌,
}
use dnswatcher.Strings.{Unicode, split, trim_space, equal_fold, starts_with}
use dnswatcher.Net.{
  Addr, no_addr, v4, v6, Prefix, Texts, is_valid, is_4_in_6, same_addr, unmap, bit_len, prefix_from,
  masked, prefix_contains,
}
use dnswatcher.HttpApi.Forwarded.{split_ignoring_quotes, parse_forwarded_element}

pub data Source : Type 0 where
  remote_addr forwarded x_forwarded_for : Source

pub data Disposition : Type 0 where
  absent honored ignored_untrusted_peer ignored_malformed ignored_conflict : Disposition
  ignored_all_trusted : Disposition

-- `unset` is the empty string.
pub data IgnoredReason : Type 0 where
  unset untrusted_peer malformed conflicting_forwarded_headers all_trusted_hops : IgnoredReason

pub record ClientIdentity : Type 0 where
  pub address : Bytes
  pub source : Source
  pub disposition : Disposition
  pub ignored_reason : IgnoredReason

-- The values of the two headers that are read.
pub record Header : Type 0 where
  pub forwarded : List Bytes
  pub x_forwarded_for : List Bytes

-- `bits - (addr.BitLen() - ipv4.BitLen())`, cut off at both ends.
unfoldable pub mapped_bits : ℕ → ℕ
mapped_bits bits = let shifted = bits - (128 - 32) in if ltb 32 shifted then 32 else shifted

unfoldable pub canonicalize_trusted_prefix : Prefix → Prefix
unfolding masked is_4_in_6 unmap prefix_from mapped_bits
canonicalize_trusted_prefix prefix =
    let cut = masked prefix in
    if not (is_4_in_6 cut.addr) then cut else prefix_from (unmap cut.addr) (mapped_bits cut.bits)

unfoldable pub addr_is_trusted : Addr → List Prefix → Bool
addr_is_trusted addr trusted =
    if not (is_valid addr) || is_nil trusted
    then false
    else any (λ prefix. prefix_contains (canonicalize_trusted_prefix prefix) (unmap addr)) trusted

-- The results of `clientFromTrustedChain`: no hops, the client, or only trusted hops.
pub data ChainResult : Type 0 where
  no_hops all_trusted : ChainResult
  client : Addr → ChainResult

-- The loop from the last hop to the first: the hop is judged behind those after it.
unfoldable pub last_untrusted : List Addr → List Prefix → Option Addr
last_untrusted [] trusted = none
last_untrusted (hop ∷ hops) trusted = elim (last_untrusted hops trusted) [
  | some addr ↦ some addr
  | none ↦ if addr_is_trusted hop trusted then none else some hop
]

abbrev pub chain_result : Option Addr → ChainResult
chain_result none = all_trusted
chain_result (some addr) = client addr

unfoldable pub client_from_trusted_chain : List Addr → List Prefix → ChainResult
client_from_trusted_chain [] trusted = no_hops
client_from_trusted_chain (hop ∷ hops) trusted = chain_result (last_untrusted (hop ∷ hops) trusted)

abbrev pub identity : Bytes → Source → Disposition → IgnoredReason → ClientIdentity
identity address source disposition reason = record {
  address = address;
  source = source;
  disposition = disposition;
  ignored_reason = reason;
}

unfoldable pub has_forwarded_headers : Header → Bool
has_forwarded_headers header = not (is_nil header.forwarded) || not (is_nil header.x_forwarded_for)

-- The text up to the first ']', and what follows it.
unfoldable pub cut_bracket : Bytes → Option (Bytes × Bytes)
cut_bracket [] = none
cut_bracket (c ∷ s) =
    let later = cut_bracket s >>= λ (host, rest). some (c ∷ host, rest) in
    if c == b']' then some ([], s) else later

module _ (unicode : Unicode) (texts : Texts) where
  unfoldable pub parse_canonical_addr : Bytes → Option Addr
  parse_canonical_addr value = texts.parse_addr value >>= λ addr. some (unmap addr)

  unfoldable pub canonical_addr : Addr → Bytes
  canonical_addr addr = if not (is_valid addr) then [] else texts.addr_string (unmap addr)

  -- A value in brackets, behind the opening one.
  unfoldable pub parse_bracketed : Bytes → Option Addr
  parse_bracketed value = cut_bracket value >>= λ (host, rest).
      if not (is_nil rest) && not (starts_with rest (codes ":"))
      then none
      else parse_canonical_addr host

  abbrev pub or_value : Option Bytes → Bytes → Bytes
  or_value none value = value
  or_value (some host) value = host

  abbrev pub after_first : Bytes → Bytes
  after_first [] = []
  after_first (c ∷ s) = s

  unfoldable pub parse_trimmed : Bytes → Option Addr
  parse_trimmed value =
      if is_nil value
        || any (λ c. c == b'"') value
        || equal_fold unicode value (codes "unknown")
        || starts_with value (codes "_")
      then none
      else if starts_with value (codes "[")
      then parse_bracketed (after_first value)
      else parse_canonical_addr (or_value (texts.split_host value) value)

  unfoldable pub parse_ip_hop : Bytes → Option Addr
  parse_ip_hop value = parse_trimmed (trim_space unicode value)

  -- The inner loops of the two parsers, over the parts of one value; `none` is malformed.
  unfoldable pub parse_parts : List Bytes → Option (List Addr)
  parse_parts [] = some []
  parse_parts (part ∷ parts) =
      let trimmed = trim_space unicode part in
      if is_nil trimmed
      then none
      else parse_ip_hop trimmed >>= λ addr. parse_parts parts >>= λ hops. some (addr ∷ hops)

  unfoldable pub parse_elements : List Bytes → Option (List Addr)
  parse_elements [] = some []
  parse_elements (element ∷ elements) =
      let trimmed = trim_space unicode element in
      if is_nil trimmed
      then none
      else parse_forwarded_element unicode trimmed >>= λ for_param.
          parse_ip_hop for_param >>= λ addr. parse_elements elements >>= λ hops. some (addr ∷ hops)

  unfoldable pub parse_x_forwarded_for_addrs : List Bytes → Option (List Addr)
  parse_x_forwarded_for_addrs [] = some []
  parse_x_forwarded_for_addrs (value ∷ values) = parse_parts (split value b',') >>= λ hops.
      parse_x_forwarded_for_addrs values >>= λ later. some (hops ++ later)

  unfoldable pub parse_forwarded_for_addrs : List Bytes → Option (List Addr)
  parse_forwarded_for_addrs [] = some []
  parse_forwarded_for_addrs (value ∷ values) =
      parse_elements (split_ignoring_quotes value b',') >>= λ hops.
      parse_forwarded_for_addrs values >>= λ later. some (hops ++ later)

  -- The address, if the peer's text holds one, and the key.
  unfoldable pub peer_of : Bytes → Option Addr → Addr × Bytes
  peer_of remote (some addr) = (addr, canonical_addr addr)
  peer_of remote none = (no_addr, remote)

  unfoldable pub peer_identity : Bytes → Addr × Bytes
  peer_identity remote = peer_of remote (parse_ip_hop (or_value (texts.split_host remote) remote))

  abbrev ignored_malformed_for : Bytes → ClientIdentity
  ignored_malformed_for key =
      identity key Source.remote_addr Disposition.ignored_malformed IgnoredReason.malformed

  -- The last `switch`, on the client of the Forwarded header and that of X-Forwarded-For.
  unfoldable pub choose : Bytes → ChainResult → ChainResult → ClientIdentity
  choose key (client from_forwarded) (client from_xff) =
      if not (same_addr from_forwarded from_xff)
      then identity key Source.remote_addr Disposition.ignored_conflict
          IgnoredReason.conflicting_forwarded_headers
      else identity (canonical_addr from_xff) Source.x_forwarded_for Disposition.honored
          IgnoredReason.unset
  choose key _ (client from_xff) =
      identity (canonical_addr from_xff) Source.x_forwarded_for Disposition.honored
        IgnoredReason.unset
  choose key (client from_forwarded) _ =
      identity (canonical_addr from_forwarded) Source.forwarded Disposition.honored
        IgnoredReason.unset
  choose key no_hops no_hops = ignored_malformed_for key
  choose key _ _ =
      identity key Source.remote_addr Disposition.ignored_all_trusted IgnoredReason.all_trusted_hops

  -- Behind the two parsers.
  unfoldable pub choose_parsed :
      Bytes → List Prefix → Option (List Addr) → Option (List Addr) → ClientIdentity
  choose_parsed key trusted (some forwarded_hops) (some xff_hops) =
      choose key (client_from_trusted_chain forwarded_hops trusted)
        (client_from_trusted_chain xff_hops trusted)
  choose_parsed key trusted _ _ = ignored_malformed_for key

  unfoldable pub resolve_client_identity : Bytes → Header → List Prefix → ClientIdentity
  resolve_client_identity remote header trusted =
      let (peer, key) = peer_identity remote in
      if not (has_forwarded_headers header)
      then identity key Source.remote_addr Disposition.absent IgnoredReason.unset
      else if not (is_valid peer) || not (addr_is_trusted peer trusted)
      then identity key Source.remote_addr Disposition.ignored_untrusted_peer
          IgnoredReason.untrusted_peer
      else choose_parsed key trusted (parse_forwarded_for_addrs header.forwarded)
          (parse_x_forwarded_for_addrs header.x_forwarded_for)

-- `ParseTrustedProxyCIDRs`: the prefixes and the invalid texts.
module _ (unicode : Unicode) (texts : Texts) where
  abbrev single_host : Option Addr → Option Prefix
  single_host none = none
  single_host (some addr) = some (prefix_from addr (bit_len addr))

  abbrev parse_cidr : Bytes → Option Prefix → Option Prefix
  parse_cidr raw none = single_host (texts.parse_addr raw)
  parse_cidr raw (some prefix) = some prefix

  abbrev add_cidr : Bytes → Option Prefix → List Prefix × List Bytes → List Prefix × List Bytes
  add_cidr raw none (prefixes, invalid) = (prefixes, raw ∷ invalid)
  add_cidr raw (some prefix) (prefixes, invalid) =
      (canonicalize_trusted_prefix prefix ∷ prefixes, invalid)

  unfoldable pub parse_trusted_proxy_cidrs : List Bytes → List Prefix × List Bytes
  parse_trusted_proxy_cidrs [] = ([], [])
  parse_trusted_proxy_cidrs (value ∷ values) =
      let raw = trim_space unicode value in
      let later = parse_trusted_proxy_cidrs values in
      if is_nil raw then later else add_cidr raw (parse_cidr raw (texts.parse_prefix raw)) later
