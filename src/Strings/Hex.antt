-- ===== src/Strings/Hex.antt =====
-- Hexadecimal digits, as Go's encoding/hex writes them.
use dnswatcher.Prelude.{ℕ, ◌+◌, ◌-◌, ◌/◌, ◌%◌, [], ◌∷◌, ltb, if◌then◌else◌, Bytes}

abbrev pub hex_digit : ℕ → ℕ
hex_digit n = if ltb n 10 then b'0' + n else b'a' + (n - 10)

-- hex.EncodeToString
unfoldable pub hex : Bytes → Bytes
hex [] = []
hex (c ∷ text) = hex_digit (c / 16) ∷ hex_digit (c % 16) ∷ hex text
