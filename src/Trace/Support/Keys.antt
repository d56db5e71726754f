-- ===== src/Trace/Support/Keys.antt =====
-- What a visited key tells: which server was asked which question, and for what purpose.
use mathlib.Core.List.{append_assoc}
use dnswatcher.Prelude.{
  ◌≡◌, refl, sym, ap, ◌∙◌, ◌∷◌, ◌++◌, Bytes, codes, arith, equal, if◌then◌else◌,
}
use dnswatcher.Strings.{join}
use dnswatcher.Strings.Separated.{Lacks, append-eq-first, append-eq-last}
use dnswatcher.Contracts.Kinds.{HopPurpose}
use dnswatcher.Trace.State.{Cursor}
use dnswatcher.Trace.Support.{visited_key, purpose_word}

purpose_word-Lacks : (p : HopPurpose) → Lacks b'|' (purpose_word p)
unfolding purpose_word
purpose_word-Lacks HopPurpose.unset = omega arith
purpose_word-Lacks HopPurpose.delegation = omega arith
purpose_word-Lacks HopPurpose.cname_follow = omega arith
purpose_word-Lacks HopPurpose.nameserver_address_lookup = omega arith

-- The inverse of the words.
abbrev purpose_of : Bytes → HopPurpose
purpose_of s =
    if equal s (codes "delegation")
    then HopPurpose.delegation
    else if equal s (codes "cname_follow")
    then HopPurpose.cname_follow
    else if equal s (codes "nameserver_address_lookup")
    then HopPurpose.nameserver_address_lookup
    else HopPurpose.unset

purpose_of-word : (p : HopPurpose) → purpose_of (purpose_word p) ≡ p
unfolding purpose_word equal
purpose_of-word HopPurpose.unset = refl
purpose_of-word HopPurpose.delegation = refl
purpose_of-word HopPurpose.cname_follow = refl
purpose_of-word HopPurpose.nameserver_address_lookup = refl

-- The server, the question and the purpose behind two keys are the same.
pub record AreSame (ip ip' : Bytes) (at at' : Cursor) : Type 0 where
  pub server : ip ≡ ip'
  pub name : at.qname ≡ at'.qname
  pub type : at.qtype ≡ at'.qtype
  pub purpose : at.purpose ≡ at'.purpose

key_parts :
    (ip : Bytes) (at : Cursor)
    → visited_key ip at
      ≡ ip ++ b'|' ∷ ((at.qname ++ b'|' ∷ at.qtype) ++ b'|' ∷ purpose_word at.purpose)
unfolding visited_key join
key_parts ip at =
    ap (λ s. ip ++ b'|' ∷ s)
      (sym (append_assoc at.qname (b'|' ∷ at.qtype) (b'|' ∷ purpose_word at.purpose)))

-- Two visited keys are equal only for the same server, name, type and purpose, if the address and
-- the type hold no bar.
pub visited_key-AreSame :
    (ip ip' : Bytes) (at at' : Cursor)
    → Lacks b'|' ip
    → Lacks b'|' ip'
    → Lacks b'|' at.qtype
    → Lacks b'|' at'.qtype
    → visited_key ip at ≡ visited_key ip' at'
    → AreSame ip ip' at at'
visited_key-AreSame ip ip' at at' h h' k k' e =
    let (server, rest) =
      append-eq-first b'|' ip ip' _ _ h h' (sym (key_parts ip at) ∙ e ∙ key_parts ip' at') in
    let (question, word) =
      append-eq-last b'|' (at.qname ++ b'|' ∷ at.qtype) (at'.qname ++ b'|' ∷ at'.qtype)
        (purpose_word at.purpose) (purpose_word at'.purpose) (purpose_word-Lacks at.purpose)
        (purpose_word-Lacks at'.purpose) rest in
    let (name, type) = append-eq-last b'|' at.qname at'.qname at.qtype at'.qtype k k' question in
    record {
      server = server;
      name = name;
      type = type;
      purpose = sym (purpose_of-word at.purpose) ∙ ap purpose_of word ∙ purpose_of-word at'.purpose;
    }
