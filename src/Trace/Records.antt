-- ===== src/Trace/Records.antt =====
-- The helpers of backend/internal/trace/engine.go that read the records of a response.
pub mod Groups
pub mod Grouping
pub mod Sets
use dnswatcher.Prelude.{
  ℕ, zero, suc, ◌+◌, ◌/◌, ◌%◌, Bool, true, false, not, ◌&&◌, ◌||◌, List, [], ◌∷◌, ◌++◌, map, ltb,
  ◌==◌, if◌then◌else◌, length, any, Bytes, String, codes, equal, contains,
}
use dnswatcher.Strings.{ends_with, trim_suffix, split, equal_fold}
use dnswatcher.Contracts.{RrSet}
use dnswatcher.Contracts.Kinds.{Role, HopPurpose}
use dnswatcher.Trace.Dns.{Header, Rr, Msg, Env}

unfoldable pub header : Rr → Header
header (Rr.a h _) = h
header (Rr.aaaa h _) = h
header (Rr.ns h _) = h
header (Rr.cname h _) = h
header (Rr.soa h _ _ _ _ _ _ _) = h
header (Rr.other h _) = h

-- The digits of `%d`; the fuel is more than their number.
unfoldable pub decimal_within : ℕ → ℕ → Bytes
decimal_within zero n = []
decimal_within (suc fuel) n =
    let front = decimal_within fuel (n / 10) in
    if ltb n 10 then (b'0' + n) ∷ [] else front ++ (b'0' + n % 10) ∷ []

unfoldable pub decimal : ℕ → Bytes
decimal n = decimal_within (suc n) n

unfoldable pub spaced : List ℕ → Bytes
spaced [] = []
spaced (n ∷ ns) = b' ' ∷ decimal n ++ spaced ns

unfoldable pub record_string : Rr → Bytes
record_string (Rr.a _ ip) = ip
record_string (Rr.aaaa _ ip) = ip
record_string (Rr.ns _ target) = target
record_string (Rr.cname _ target) = target
record_string (Rr.soa _ ns mbox serial refresh retry expire minttl) =
    ns ++ (b' ' ∷ mbox ++ spaced (serial ∷ refresh ∷ retry ∷ expire ∷ minttl ∷ []))
record_string (Rr.other _ text) = text

-- The loop of `rrsetsFromSection`: the map `grouped` with its keys in the order of `order`.
unfoldable pub add_to_group : Bytes → RrSet → Bytes → List (Bytes × RrSet) → List (Bytes × RrSet)
add_to_group key fresh value [] = (key, record fresh { values = fresh.values ++ value ∷ [] }) ∷ []
add_to_group key fresh value ((k, rrset) ∷ groups) =
    let later = add_to_group key fresh value groups in
    if equal k key
    then (k, record rrset { values = rrset.values ++ value ∷ [] }) ∷ groups
    else (k, rrset) ∷ later

unfoldable pub unique_from : List Bytes → List Bytes → List Bytes
unique_from seen [] = []
unique_from seen (value ∷ values) =
    let skipped = unique_from seen values in
    let kept = unique_from (value ∷ seen) values in
    if contains value seen then skipped else value ∷ kept

unfoldable pub unique_strings : List Bytes → List Bytes
unique_strings values = unique_from [] values

unfoldable pub fqdn : Bytes → Bytes
fqdn name = if ends_with name (codes ".") then name else name ++ codes "."

unfoldable pub count_labels : Bytes → ℕ
count_labels zone =
    let trimmed = trim_suffix zone (codes ".") in
    if equal trimmed [] then 0 else length (split trimmed b'.')

unfoldable pub ns_names : List Rr → List Bytes
ns_names [] = []
ns_names (Rr.ns _ target ∷ records) = target ∷ ns_names records
ns_names (_ ∷ records) = ns_names records

unfoldable pub ns_targets : List Rr → List Bytes
ns_targets records = unique_strings (ns_names records)

-- The map of `glueAddrs` as an association list.
unfoldable pub add_glue : Bytes → Bytes → List (Bytes × List Bytes) → List (Bytes × List Bytes)
add_glue name ip [] = (name, ip ∷ []) ∷ []
add_glue name ip ((k, ips) ∷ glue) =
    if equal k name then (k, ips ++ ip ∷ []) ∷ glue else (k, ips) ∷ add_glue name ip glue

unfoldable pub glue_from : List (Bytes × List Bytes) → List Rr → List (Bytes × List Bytes)
glue_from glue [] = glue
glue_from glue (Rr.a h ip ∷ records) = glue_from (add_glue h.name ip glue) records
glue_from glue (Rr.aaaa h ip ∷ records) = glue_from (add_glue h.name ip glue) records
glue_from glue (_ ∷ records) = glue_from glue records

unfoldable pub glue_addrs : List Rr → List (Bytes × List Bytes)
glue_addrs records = glue_from [] records

-- `glue[name]`; a missing key has no addresses to range over.
unfoldable pub glue_of : Bytes → List (Bytes × List Bytes) → List Bytes
glue_of name [] = []
glue_of name ((k, ips) ∷ glue) = if equal k name then ips else glue_of name glue

unfoldable pub referral_zone : List Rr → Bytes
referral_zone [] = codes "."
referral_zone (Rr.ns h _ ∷ records) = h.name
referral_zone (_ ∷ records) = referral_zone records

module _ (env : Env) where
  open env use {unicode, dns}

  unfoldable pub fresh_rrset : String → Rr → RrSet
  fresh_rrset section rr = record {
    section = section;
    name = (header rr).name;
    type = dns.type_to_string (header rr).rrtype;
    ttl = (header rr).ttl;
    values = [];
  }

  unfoldable pub group_key : Rr → Bytes
  group_key rr = (header rr).name ++ (b'|' ∷ dns.type_to_string (header rr).rrtype)

  unfoldable pub group_records : String → List (Bytes × RrSet) → List Rr → List (Bytes × RrSet)
  group_records section groups [] = groups
  group_records section groups (rr ∷ records) =
      group_records section
        (add_to_group (group_key rr) (fresh_rrset section rr) (record_string rr) groups) records

  unfoldable pub rrsets_from_section : String → List Rr → List RrSet
  rrsets_from_section section records = map (λ group. group.1) (group_records section [] records)

  unfoldable pub matches_type : Bytes → Bytes → Rr → Bool
  matches_type qname qtype rr =
      equal_fold unicode (header rr).name qname
      && equal (dns.type_to_string (header rr).rrtype) qtype

  unfoldable pub has_type : List Rr → Bytes → Bytes → Bool
  has_type records qname qtype = any (matches_type qname qtype) records

  -- The empty string if there is none.
  unfoldable pub first_cname : List Rr → Bytes → Bytes
  first_cname [] qname = []
  first_cname (Rr.cname h target ∷ records) qname =
      if equal_fold unicode h.name qname then target else first_cname records qname
  first_cname (_ ∷ records) qname = first_cname records qname

  unfoldable pub is_nodata : Msg → Bool
  is_nodata response =
      if not (response.rcode == dns.rcode_success)
        || not response.authoritative
        || ltb 0 (length response.answer)
      then false
      else any (λ rr. (header rr).rrtype == dns.type_soa) response.ns

  abbrev pub is_success : Msg → Bool
  is_success response = response.rcode == dns.rcode_success

  -- `classifyRole` behind its first test.
  unfoldable pub role_by_response : Bool → Bytes → Msg → Bytes → Bytes → Role
  role_by_response follows zone response qname qtype =
      if follows && not (equal (first_cname response.answer qname) [])
      then Role.alias
      else if has_type response.answer qname qtype
          || is_nodata response
          || not (is_success response)
      then Role.final
      else if equal zone (codes ".")
      then Role.root
      else if count_labels zone == 1
      then Role.tld
      else Role.authoritative

  unfoldable pub classify_role : Bytes → HopPurpose → Msg → Bytes → Bytes → Role
  classify_role zone HopPurpose.nameserver_address_lookup response qname qtype = Role.authoritative
  classify_role zone HopPurpose.cname_follow response qname qtype =
      role_by_response true zone response qname qtype
  classify_role zone _ response qname qtype = role_by_response false zone response qname qtype

  unfoldable pub explain_rcode : ℕ → String
  explain_rcode rcode =
      if rcode == dns.rcode_name_error
      then "The authoritative server reported that the name does not exist."
      else if rcode == dns.rcode_server_failure
      then "The upstream server reported a server failure."
      else if rcode == dns.rcode_refused
      then "The upstream server refused the query."
      else if rcode == dns.rcode_not_implemented
      then "The upstream server does not implement the requested operation."
      else "The upstream server returned a non-success response code."
