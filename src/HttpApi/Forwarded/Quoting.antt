-- ===== src/HttpApi/Forwarded/Quoting.antt =====
-- Quoted strings and lists of the Forwarded header, against their printers.
use dnswatcher.Prelude.{
  ℕ, ◌≡◌, refl, sym, ◌≢◌, Bool, true, false, not, ◌||◌, List, [], ◌∷◌, ◌++◌, some, arith, ◌==◌,
  if◌then◌else◌, Bytes,
}
use mathlib.Core.List.{append_assoc, append-nil}
use dnswatcher.Strings.{join}
use dnswatcher.HttpApi.Forwarded.{
  quoted_from, parse_quoted_string, split_from, split_ignoring_quotes,
}

-- A backslash in front of each quote and each backslash.
abbrev pub escape_byte : ℕ → Bytes
escape_byte c = if c == b'"' || c == b'\\' then b'\\' ∷ c ∷ [] else c ∷ []

abbrev pub escape : Bytes → Bytes
escape [] = []
escape (c ∷ s) = escape_byte c ++ escape s

abbrev pub quote : Bytes → Bytes
quote s = b'"' ∷ (escape s ++ b'"' ∷ [])

quoted_from-escape :
    (s out : Bytes) → quoted_from false false out (escape s ++ b'"' ∷ []) ≡ some (out ++ s)
unfolding quoted_from
quoted_from-escape [] out = rw append-nil
quoted_from-escape (c ∷ s) out =
    ground (arith, quoted_from-escape s (out ++ c ∷ []), append_assoc out (c ∷ []) s)

-- Reading a quoted string gives back the string that was quoted, whatever its bytes.
pub parse_quoted_string-quote : (s : Bytes) → parse_quoted_string (quote s) ≡ some s
unfolding parse_quoted_string
parse_quoted_string-quote [] = unfold quoted_from in refl
parse_quoted_string-quote (c ∷ s) = ground (arith, quoted_from-escape (c ∷ s) [])

split_from-ne-nil : (sep : ℕ) (q b : Bool) (part s : Bytes) → split_from sep q b part s ≢ []
unfolding split_from
split_from-ne-nil sep q b part [] h = cc
split_from-ne-nil sep q b part (c ∷ s) h = ground (
  arith,
  split_from-ne-nil sep q false (part ++ c ∷ []) s,
  split_from-ne-nil sep q true (part ++ c ∷ []) s,
  split_from-ne-nil sep (not q) b (part ++ c ∷ []) s,
)

join_cons :
    (p : Bytes) (ps : List Bytes) (sep : Bytes)
    → ps ≢ []
    → join (p ∷ ps) sep ≡ p ++ (sep ++ join ps sep)
unfolding join
join_cons p [] sep ne = absurd (ne refl)
join_cons p (q ∷ ps) sep ne = refl

join-split_from :
    (sep : ℕ) (q b : Bool) (part s : Bytes)
    → join (split_from sep q b part s) (sep ∷ []) ≡ part ++ s
unfolding split_from
join-split_from sep q b part [] = unfold join in sym (append-nil part)
join-split_from sep q b part (c ∷ s) = ground (
  arith,
  join-split_from sep q false (part ++ c ∷ []) s,
  join-split_from sep q true (part ++ c ∷ []) s,
  join-split_from sep (not q) b (part ++ c ∷ []) s,
  join-split_from sep q b [] s,
  join_cons part (split_from sep q b [] s) (sep ∷ []) (split_from-ne-nil sep q b [] s),
  append_assoc part (c ∷ []) s,
)

-- Joining the parts of a list by its separator gives the header's value back: the split drops no
-- byte.
pub join-split_ignoring_quotes :
    (value : Bytes) (sep : ℕ) → join (split_ignoring_quotes value sep) (sep ∷ []) ≡ value
unfolding split_ignoring_quotes
join-split_ignoring_quotes value sep = join-split_from sep false false [] value

-- Inside quotes, an escaped text is one stretch without a cut.
split_from-escape :
    (sep : ℕ) (part s rest : Bytes)
    → split_from sep true false part (escape s ++ rest)
      ≡ split_from sep true false (part ++ escape s) rest
unfolding split_from
split_from-escape sep part [] rest = rw append-nil
split_from-escape sep part (c ∷ s) rest = ground (
  arith,
  split_from-escape sep ((part ++ b'\\' ∷ []) ++ c ∷ []) s rest,
  split_from-escape sep (part ++ c ∷ []) s rest,
  append_assoc part (b'\\' ∷ []) (c ∷ []),
  append_assoc part (c ∷ []) (escape s),
  append_assoc part (b'\\' ∷ c ∷ []) (escape s),
)

-- A quoted string is one part of a list, whatever separators stand inside.
pub split_ignoring_quotes-quote :
    (s : Bytes) (sep : ℕ) → split_ignoring_quotes (quote s) sep ≡ quote s ∷ []
unfolding split_ignoring_quotes split_from
split_ignoring_quotes-quote s sep = split_from-escape sep (b'"' ∷ []) s (b'"' ∷ [])
