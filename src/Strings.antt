-- ===== src/Strings.antt =====
-- The functions of Go's `strings` and `unicode/utf8` packages that the program calls, on bytes.
-- On ASCII they are written out. On a string with another byte they go by the Unicode tables,
-- which are a parameter.
pub mod Split
pub mod Case
pub mod Hex
pub mod Separated
use dnswatcher.Prelude.{
  ℕ, ◌+◌, ◌-◌, Bool, true, false, ◌&&◌, ◌||◌, List, [], ◌∷◌, ◌++◌, map, ltb, leb, ◌==◌,
  if◌then◌else◌, length, take, all, Bytes, equal,
}

pub record Unicode : Type 0 where
  pub lower : Bytes → Bytes
  pub upper : Bytes → Bytes
  pub trim : Bytes → Bytes
  pub valid : Bytes → Bool
  pub fold : Bytes → Bytes → Bool

abbrev pub within : ℕ → ℕ → ℕ → Bool
within lo hi c = leb lo c && leb c hi

abbrev pub is_ascii_byte : ℕ → Bool
is_ascii_byte c = ltb c 128

unfoldable pub is_ascii : Bytes → Bool
is_ascii s = all is_ascii_byte s

unfoldable pub lower_byte : ℕ → ℕ
lower_byte c = if within b'A' b'Z' c then c + 32 else c

unfoldable pub upper_byte : ℕ → ℕ
upper_byte c = if within b'a' b'z' c then c - 32 else c

-- '\t', '\n', '\v', '\f', '\r' and ' '
unfoldable pub is_space : ℕ → Bool
is_space c = within 9 13 c || c == b' '

unfoldable pub trim_left : Bytes → Bytes
trim_left [] = []
trim_left (c ∷ s) = if is_space c then trim_left s else c ∷ s

-- One byte in front of a string whose end has been trimmed.
abbrev pub push_trimmed : ℕ → Bytes → Bytes
push_trimmed c [] = if is_space c then [] else c ∷ []
push_trimmed c (d ∷ s) = c ∷ d ∷ s

unfoldable pub trim_right : Bytes → Bytes
trim_right [] = []
trim_right (c ∷ s) = push_trimmed c (trim_right s)

unfoldable pub starts_with : Bytes → Bytes → Bool
starts_with s [] = true
starts_with [] (p ∷ pre) = false
starts_with (c ∷ s) (p ∷ pre) = c == p && starts_with s pre

unfoldable pub ends_with : Bytes → Bytes → Bool
ends_with [] suffix = equal [] suffix
ends_with (c ∷ s) suffix = equal (c ∷ s) suffix || ends_with s suffix

unfoldable pub trim_suffix : Bytes → Bytes → Bytes
trim_suffix s suffix = if ends_with s suffix then take (length s - length suffix) s else s

abbrev pub push_head : ℕ → List Bytes → List Bytes
push_head c [] = (c ∷ []) ∷ []
push_head c (p ∷ ps) = (c ∷ p) ∷ ps

-- `strings.Split` at a separator of one byte.
unfoldable pub split : Bytes → ℕ → List Bytes
split [] sep = [] ∷ []
split (c ∷ s) sep = let parts = split s sep in if c == sep then [] ∷ parts else push_head c parts

unfoldable pub join : List Bytes → Bytes → Bytes
join [] sep = []
join (p ∷ []) sep = p
join (p ∷ q ∷ ps) sep = p ++ (sep ++ join (q ∷ ps) sep)

module _ (unicode : Unicode) where
  unfoldable pub to_lower : Bytes → Bytes
  to_lower s = if is_ascii s then map lower_byte s else unicode.lower s

  unfoldable pub to_upper : Bytes → Bytes
  to_upper s = if is_ascii s then map upper_byte s else unicode.upper s

  unfoldable pub trim_space : Bytes → Bytes
  trim_space s = if is_ascii s then trim_right (trim_left s) else unicode.trim s

  unfoldable pub valid_string : Bytes → Bool
  valid_string s = if is_ascii s then true else unicode.valid s

  unfoldable pub equal_fold : Bytes → Bytes → Bool
  equal_fold s t =
      if is_ascii s && is_ascii t
      then equal (map lower_byte s) (map lower_byte t)
      else unicode.fold s t
