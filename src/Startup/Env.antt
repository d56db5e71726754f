-- ===== src/Startup/Env.antt =====
-- backend/cmd/dnswatcher-api/main.go: envString, envInt, envInt64 and envDuration, on the variable's
-- value. An unset variable is the empty string, as for os.Getenv.
pub mod Numerals
use dnswatcher.Prelude.{
  ℕ, zero, suc, ◌+◌, ◌-◌, ◌*◌, ◌^◌, Bool, true, false, ◌&&◌, List, [], ◌∷◌, Option, none, some, ltb,
  leb, ◌==◌, if◌then◌else◌, is_nil, Bytes, ℤ, pos, minus,
}

abbrev pub or_fallback {ℓ} : {A : Type ℓ} → Option A → A → A
or_fallback none fallback = fallback
or_fallback (some value) fallback = value

unfoldable pub env_string : Bytes → Bytes → Bytes
env_string value fallback = if is_nil value then fallback else value

-- The number of a text of digits behind the digits of `front`.
unfoldable pub digits_from : ℕ → Bytes → Option ℕ
digits_from front [] = some front
digits_from front (c ∷ text) =
    let later = digits_from (front * 10 + (c - b'0')) text in
    if leb b'0' c && leb c b'9' then later else none

unfoldable pub unsigned : Bytes → Option ℕ
unsigned text = if is_nil text then none else digits_from 0 text

abbrev pub int64_end : ℕ
int64_end = 2 ^ 63

abbrev pub positive : Option ℕ → Option ℤ
positive none = none
positive (some n) = if ltb n int64_end then some (pos n) else none

abbrev pub negative : Option ℕ → Option ℤ
negative none = none
negative (some n) = if leb n int64_end then some (minus n) else none

-- strconv.ParseInt in base 10 for 64 bits, which is also strconv.Atoi where `int` has 64 bits.
unfoldable pub parse_int : Bytes → Option ℤ
parse_int [] = none
parse_int (c ∷ text) =
    if c == b'+'
    then positive (unsigned text)
    else if c == b'-'
    then negative (unsigned text)
    else positive (unsigned (c ∷ text))

unfoldable pub env_int : Bytes → ℤ → ℤ
env_int value fallback = if is_nil value then fallback else or_fallback (parse_int value) fallback

unfoldable pub env_int64 : Bytes → ℤ → ℤ
env_int64 value fallback = if is_nil value then fallback else or_fallback (parse_int value) fallback

-- `parse_duration` is time.ParseDuration, in nanoseconds.
unfoldable pub env_duration : (Bytes → Option ℤ) → Bytes → ℤ → ℤ
env_duration parse_duration value fallback =
    if is_nil value then fallback else or_fallback (parse_duration value) fallback
