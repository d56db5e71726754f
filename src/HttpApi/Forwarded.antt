-- ===== src/HttpApi/Forwarded.antt =====
-- The syntax of the Forwarded header in backend/internal/httpapi/clientid.go: tokens, quoted
-- strings, lists and elements. `none` is a false second result.
pub mod Quoting
use dnswatcher.Prelude.{
  ℕ, Bool, true, false, not, ◌&&◌, ◌||◌, List, [], ◌∷◌, ◌++◌, Option, none, some, ◌==◌,
  if◌then◌else◌, all, any, is_nil, Bytes, codes, equal, contains, ◌>>=◌,
}
use dnswatcher.Strings.{Unicode, within, to_lower, trim_space}

-- The punctuation of the `switch`.
abbrev token_marks : Bytes
token_marks = codes "!#$%&'*+-.^_`|~"

unfoldable pub is_tchar : ℕ → Bool
is_tchar c =
    any (λ mark. c == mark) token_marks
    || within b'0' b'9' c
    || within b'A' b'Z' c
    || within b'a' b'z' c

unfoldable pub is_http_token : Bytes → Bool
is_http_token [] = false
is_http_token (c ∷ s) = all is_tchar (c ∷ s)

-- The loop of `parseQuotedString`, behind the opening quote.
unfoldable pub quoted_from : Bool → Bool → Bytes → Bytes → Option Bytes
quoted_from escaped closed out [] = if escaped || not closed then none else some out
quoted_from escaped closed out (c ∷ s) =
    let escaping = quoted_from true closed out s in
    let closing = quoted_from escaped true out s in
    let written = quoted_from false closed (out ++ c ∷ []) s in
    if closed
    then none
    else if escaped
    then written
    else if c == b'\\'
    then escaping
    else if c == b'"'
    then closing
    else written

unfoldable pub parse_quoted_string : Bytes → Option Bytes
parse_quoted_string [] = none
parse_quoted_string (c ∷ []) = none
parse_quoted_string (c ∷ d ∷ s) = if c == b'"' then quoted_from false false [] (d ∷ s) else none

-- `value[0] == '"'`
abbrev pub starts_quoted : Bytes → Bool
starts_quoted [] = false
starts_quoted (c ∷ _) = c == b'"'

unfoldable pub unquote_forwarded_value : Bytes → Option Bytes
unquote_forwarded_value value =
    if is_nil value
    then none
    else if starts_quoted value
    then parse_quoted_string value
    else if not (is_http_token value)
    then none
    else some value

-- The loop of `splitIgnoringQuotes`; `part` is the builder.
unfoldable pub split_from : ℕ → Bool → Bool → Bytes → Bytes → List Bytes
split_from sep in_quotes escaped part [] = part ∷ []
split_from sep in_quotes escaped part (c ∷ s) =
    let plain = split_from sep in_quotes false (part ++ c ∷ []) s in
    let escaping = split_from sep in_quotes true (part ++ c ∷ []) s in
    let turned = split_from sep (not in_quotes) escaped (part ++ c ∷ []) s in
    let cut = part ∷ split_from sep in_quotes escaped [] s in
    if escaped
    then plain
    else if in_quotes && c == b'\\'
    then escaping
    else if c == b'"'
    then turned
    else if c == sep && not in_quotes
    then cut
    else plain

unfoldable pub split_ignoring_quotes : Bytes → ℕ → List Bytes
split_ignoring_quotes value sep = split_from sep false false [] value

-- `strings.Cut(pair, "=")`
unfoldable pub cut_equals : Bytes → Option (Bytes × Bytes)
cut_equals [] = none
cut_equals (c ∷ s) =
    let later = cut_equals s >>= λ (key, value). some (c ∷ key, value) in
    if c == b'=' then some ([], s) else later

module _ (unicode : Unicode) where
  -- A parameter's key and value; `none` where the loop of `parseForwardedElement` gives up.
  unfoldable pub parse_pair : List Bytes → Bytes → Option (Bytes × Bytes)
  parse_pair seen pair =
      if is_nil pair
      then none
      else cut_equals pair >>= λ (raw, value).
          let key = to_lower unicode (trim_space unicode raw) in
          if not (is_http_token key) || contains key seen
          then none
          else unquote_forwarded_value (trim_space unicode value) >>= λ unquoted.
              if is_nil unquoted then none else some (key, unquoted)

  -- The loop over the parameters. `found` is `forVal` where `seenFor` holds.
  unfoldable pub parse_pairs : List Bytes → Option Bytes → List Bytes → Option Bytes
  parse_pairs seen found [] = found
  parse_pairs seen found (pair ∷ pairs) =
      parse_pair seen (trim_space unicode pair) >>= λ (key, value).
      parse_pairs (key ∷ seen) (if equal key (codes "for") then some value else found) pairs

  unfoldable pub parse_forwarded_element : Bytes → Option Bytes
  parse_forwarded_element element = parse_pairs [] none (split_ignoring_quotes element b';')
