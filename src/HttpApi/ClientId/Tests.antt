-- ===== src/HttpApi/ClientId/Tests.antt =====
-- Runs of the identity code, and its theorems at an input: the proxy 10.0.0.1 is trusted.
use dnswatcher.Prelude.{
  ◌≡◌, refl, ◌↔◌, false, List, [], ◌∷◌, ◌++◌, none, some, if◌then◌else◌, ◌==◌, Bytes, codes, equal,
  contains,
}
use dnswatcher.Strings.{
  Unicode, split, join, is_ascii, is_space, trim_left, trim_right, trim_space, to_lower, lower_byte,
  equal_fold, starts_with,
}
use dnswatcher.Net.{
  Addr, v4, Prefix, Texts, is_4_in_6, same_addr, unmap, prefix_from, masked, prefix_contains,
}
use dnswatcher.HttpApi.Forwarded.{
  is_tchar, is_http_token, quoted_from, parse_quoted_string, unquote_forwarded_value, split_from,
  split_ignoring_quotes, cut_equals, parse_pair, parse_pairs, parse_forwarded_element,
}
use dnswatcher.HttpApi.Forwarded.Quoting.{
  quote, parse_quoted_string-quote, join-split_ignoring_quotes, split_ignoring_quotes-quote,
}
use dnswatcher.HttpApi.ClientId.{
  Source, Disposition, IgnoredReason, Header, ClientIdentity, identity, client, addr_is_trusted,
  canonicalize_trusted_prefix, last_untrusted, client_from_trusted_chain, has_forwarded_headers,
  cut_bracket, parse_canonical_addr, canonical_addr, parse_bracketed, parse_trimmed, parse_ip_hop,
  parse_parts, parse_elements, parse_x_forwarded_for_addrs, parse_forwarded_for_addrs, peer_of,
  peer_identity, choose, choose_parsed, resolve_client_identity,
}
use dnswatcher.HttpApi.ClientId.Chain.{IsLastUntrusted, client_from_trusted_chain-client}
use dnswatcher.HttpApi.ClientId.Spoofing.{
  IsHonored, resolve_client_identity-untrusted, resolve_client_identity-IsHonored,
  resolve_client_identity-append,
}

-- What a run computes with.
clientid : Unit {0}
unfolding equal contains split join is_ascii is_space trim_left trim_right trim_space to_lower
    lower_byte equal_fold starts_with is_4_in_6 same_addr unmap prefix_from masked prefix_contains
    is_tchar is_http_token quoted_from parse_quoted_string unquote_forwarded_value split_from
    split_ignoring_quotes cut_equals parse_pair parse_pairs parse_forwarded_element addr_is_trusted
    canonicalize_trusted_prefix last_untrusted client_from_trusted_chain has_forwarded_headers
    cut_bracket parse_canonical_addr canonical_addr parse_bracketed parse_trimmed parse_ip_hop
    parse_parts parse_elements parse_x_forwarded_for_addrs parse_forwarded_for_addrs peer_of
    peer_identity choose choose_parsed resolve_client_identity
clientid = tt

abbrev no_tables : Unicode
no_tables = record {
  lower = λ s. s;
  upper = λ s. s;
  trim = λ s. s;
  valid = λ _. false;
  fold = equal;
}

abbrev print_addr : Addr → Bytes
print_addr (v4 value) = if value == 0x09090909 then codes "9.9.9.9" else codes "other"
print_addr _ = codes "other"

abbrev texts : Texts
texts = record {
  parse_addr = λ s.
      if equal s (codes "10.0.0.1")
      then some (v4 0x0a000001)
      else if equal s (codes "9.9.9.9")
      then some (v4 0x09090909)
      else if equal s (codes "8.8.8.8")
      then some (v4 0x08080808)
      else none;
  parse_prefix = λ _. none;
  addr_string = print_addr;
  split_host = λ s. if equal s (codes "10.0.0.1:80") then some (codes "10.0.0.1") else none;
}

abbrev trusted : List Prefix
trusted = record { addr = v4 0x0a000000; bits = 8 } ∷ []

abbrev proxy : Bytes
proxy = codes "10.0.0.1:80"

abbrev header_of : List Bytes → List Bytes → Header
header_of forwarded x_forwarded_for = record {
  forwarded = forwarded;
  x_forwarded_for = x_forwarded_for;
}

abbrev one_value : List Bytes
one_value = codes "9.9.9.9, 10.0.0.1" ∷ []

abbrev spoofed : List Bytes
spoofed = codes "8.8.8.8" ∷ []

abbrev honored_run : ClientIdentity
honored_run = resolve_client_identity no_tables texts proxy (header_of [] one_value) trusted

honored_test :
    honored_run
    ≡ identity (codes "9.9.9.9") Source.x_forwarded_for Disposition.honored IgnoredReason.unset
unfolding clientid
honored_test = refl

forwarded_test :
    resolve_client_identity no_tables texts proxy
      (header_of (codes "for=9.9.9.9;proto=http" ∷ []) [])
      trusted
    ≡ identity (codes "9.9.9.9") Source.forwarded Disposition.honored IgnoredReason.unset
unfolding clientid
forwarded_test = refl

conflict_test :
    resolve_client_identity no_tables texts proxy
      (header_of (codes "for=8.8.8.8" ∷ []) one_value)
      trusted
    ≡ identity
        (codes "other")
        Source.remote_addr
        Disposition.ignored_conflict
        IgnoredReason.conflicting_forwarded_headers
unfolding clientid
conflict_test = refl

malformed_test :
    resolve_client_identity no_tables texts proxy (header_of [] (codes "9.9.9.9,," ∷ [])) trusted
    ≡ identity
        (codes "other")
        Source.remote_addr
        Disposition.ignored_malformed
        IgnoredReason.malformed
unfolding clientid
malformed_test = refl

parse_quoted_string-quote_example :
    parse_quoted_string (quote (codes "a\"b;")) ≡ some (codes "a\"b;")
parse_quoted_string-quote_example = parse_quoted_string-quote (codes "a\"b;")

join-split_ignoring_quotes_example :
    join (split_ignoring_quotes (codes "for=\"a,b\",for=c") b',') (b',' ∷ [])
    ≡ codes "for=\"a,b\",for=c"
join-split_ignoring_quotes_example = join-split_ignoring_quotes (codes "for=\"a,b\",for=c") b','

split_ignoring_quotes-quote_example :
    split_ignoring_quotes (quote (codes "a,b")) b',' ≡ quote (codes "a,b") ∷ []
split_ignoring_quotes-quote_example = split_ignoring_quotes-quote (codes "a,b") b','

abbrev chain : List Addr
chain = v4 0x08080808 ∷ v4 0x09090909 ∷ v4 0x0a000001 ∷ []

client_from_trusted_chain-client_example :
    (client_from_trusted_chain chain trusted ≡ client (v4 0x09090909))
    ↔ IsLastUntrusted trusted chain (v4 0x09090909)
client_from_trusted_chain-client_example =
    client_from_trusted_chain-client trusted chain (v4 0x09090909)

client_test : client_from_trusted_chain chain trusted ≡ client (v4 0x09090909)
unfolding clientid
client_test = refl

stranger_untrusted :
    addr_is_trusted (peer_identity no_tables texts (codes "9.9.9.9")).0 trusted ≡ false
unfolding clientid
stranger_untrusted = refl

resolve_client_identity-untrusted_example :
    (resolve_client_identity no_tables texts
      (codes "9.9.9.9")
      (header_of [] spoofed)
      trusted).address
    ≡ (peer_identity no_tables texts (codes "9.9.9.9")).1
resolve_client_identity-untrusted_example =
    resolve_client_identity-untrusted no_tables texts (codes "9.9.9.9") (header_of [] spoofed)
      trusted stranger_untrusted

honored_run_disposition : honored_run.disposition ≡ Disposition.honored
unfolding clientid
honored_run_disposition = refl

resolve_client_identity-IsHonored_example :
    IsHonored no_tables texts proxy (header_of [] one_value) trusted honored_run
resolve_client_identity-IsHonored_example =
    resolve_client_identity-IsHonored no_tables texts proxy (header_of [] one_value) trusted
      honored_run_disposition

spoofed_parses : parse_x_forwarded_for_addrs no_tables texts spoofed ≡ some (v4 0x08080808 ∷ [])
unfolding clientid
spoofed_parses = refl

honored_run_source : honored_run.source ≡ Source.x_forwarded_for
unfolding clientid
honored_run_source = refl

resolve_client_identity-append_example :
    resolve_client_identity no_tables texts proxy (header_of [] (spoofed ++ one_value)) trusted
    ≡ honored_run
resolve_client_identity-append_example =
    resolve_client_identity-append no_tables texts proxy [] spoofed one_value trusted spoofed_parses
      honored_run_source
