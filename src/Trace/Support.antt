-- ===== src/Trace/Support.antt =====
-- `resolveNameServerAddresses` of backend/internal/trace/engine.go, and the visited key.
--
-- `traceName` calls itself for support lookups. What stands between the two calls takes the inner
-- one as an argument, `Lookup`; its result `none` means that the fuel of `trace_name` ran out, and
-- nothing else.
pub mod Keys
use dnswatcher.Prelude.{
  ℕ, Bool, true, false, ◌&&◌, List, [], ◌∷◌, ◌++◌, Option, none, some, ◌==◌, if◌then◌else◌, ◌>>=◌,
  is_nil, Bytes, codes, equal,
}
use dnswatcher.Strings.{join}
use dnswatcher.Contracts.{Hop, RrSet, FinalOutcome}
use dnswatcher.Contracts.Kinds.{HopPurpose, ResponseKind, OutcomeKind}
use dnswatcher.Trace.Records.{unique_strings}
use dnswatcher.Trace.State.{TraceState, Cursor}

-- The recursive call of a support lookup: for the state, the name server's name, the type and the
-- parent's index.
abbrev pub Lookup : Type 0
Lookup = TraceState → Bytes → Bytes → ℕ → Option (FinalOutcome × TraceState)

abbrev pub is_support : HopPurpose → Bool
is_support HopPurpose.nameserver_address_lookup = true
is_support _ = false

abbrev pub is_answer : ResponseKind → Bool
is_answer ResponseKind.answer = true
is_answer _ = false

abbrev pub is_success_kind : OutcomeKind → Bool
is_success_kind OutcomeKind.success = true
is_success_kind _ = false

abbrev pub is_parent : ℕ → Option ℕ → Bool
is_parent parent none = false
is_parent parent (some index) = index == parent

-- The words of `HopPurpose`, as they stand in the visited key.
unfoldable pub purpose_word : HopPurpose → Bytes
purpose_word HopPurpose.unset = []
purpose_word HopPurpose.delegation = codes "delegation"
purpose_word HopPurpose.cname_follow = codes "cname_follow"
purpose_word HopPurpose.nameserver_address_lookup = codes "nameserver_address_lookup"

unfoldable pub visited_key : Bytes → Cursor → Bytes
visited_key ip at = join (ip ∷ at.qname ∷ at.qtype ∷ purpose_word at.purpose ∷ []) (codes "|")

-- The data of the answer sets of one type.
unfoldable pub addresses_of_type : Bytes → List RrSet → List Bytes
addresses_of_type qtype [] = []
addresses_of_type qtype (rrset ∷ rrsets) =
    (if equal rrset.type qtype then rrset.values else []) ++ addresses_of_type qtype rrsets

-- The loops over `state.hops` in `resolveNameServerAddresses`.
unfoldable pub support_addresses : Bytes → Bytes → ℕ → List Hop → List Bytes
support_addresses ns qtype parent [] = []
support_addresses ns qtype parent (hop ∷ hops) =
    (if is_parent parent hop.parent_index
        && is_support hop.hop_purpose
        && is_answer hop.response_kind
        && equal hop.qname ns
      then addresses_of_type qtype hop.answer_rrsets
      else [])
    ++ support_addresses ns qtype parent hops

-- What one round over the types has found, if it returns.
unfoldable pub found_addresses : Bytes → Bytes → ℕ → FinalOutcome → TraceState → List Bytes
found_addresses ns qtype parent result state =
    if is_success_kind result.kind then support_addresses ns qtype parent state.hops else []

-- `resolveNameServerAddresses` over the types left; an error is the empty list.
unfoldable pub resolve_types :
    Lookup → Bytes → ℕ → List Bytes → TraceState → Option (List Bytes × TraceState)
resolve_types lookup ns parent [] state = some ([], state)
resolve_types lookup ns parent (qtype ∷ qtypes) state = do
  (result, state') ← lookup state ns qtype parent
  let ips = found_addresses ns qtype parent result state'
  let rest = resolve_types lookup ns parent qtypes state'
  if is_nil ips then rest else some (unique_strings ips, state')

unfoldable pub resolve_name_server_addresses :
    Lookup → Bytes → ℕ → TraceState → Option (List Bytes × TraceState)
resolve_name_server_addresses lookup ns parent state =
    resolve_types lookup ns parent (codes "A" ∷ codes "AAAA" ∷ []) state
