-- ===== src/Startup/Env/Numerals.antt =====
-- The numbers that environment variables denote, by their numerals.
use dnswatcher.Prelude.{
  ℕ, zero, suc, ◌+◌, ◌-◌, ◌*◌, ◌/◌, ◌%◌, ◌^◌, ◌<◌, ◌≡◌, refl, ap, ◌∙◌, true, false, Bool-cases, inl,
  inr, ◌&&◌, [], ◌∷◌, ◌++◌, Option, none, some, ltb, leb, ◌==◌, is_nil, Bytes, ℤ, pos, negsuc,
  arith,
}
use dnswatcher.Trace.Records.{decimal_within, decimal}
use dnswatcher.Startup.Env.{digits_from, unsigned, positive, negative, parse_int, env_int}

-- One more digit.
abbrev push_digit : ℕ → Option ℕ → Option ℕ
push_digit d none = none
push_digit d (some n) = some (n * 10 + d)

digits_from-append :
    (front d : ℕ) (text : Bytes)
    → d < 10
    → digits_from front (text ++ (b'0' + d) ∷ []) ≡ push_digit d (digits_from front text)
unfolding digits_from
digits_from-append front d [] h = ground arith
digits_from-append front d (c ∷ text) h =
    ground (arith, digits_from-append (front * 10 + (c - b'0')) d text h)

append_not_nil : (text : Bytes) (c : ℕ) → is_nil (text ++ c ∷ []) ≡ false
append_not_nil [] c = refl
append_not_nil (d ∷ text) c = refl

digits_from-decimal_within :
    (fuel n : ℕ) → n < fuel → digits_from 0 (decimal_within fuel n) ≡ some n
unfolding decimal_within
digits_from-decimal_within zero n h = absurd (omega arith)
digits_from-decimal_within (suc fuel) n h = elim (Bool-cases (ltb n 10)) [
  | inl small ↦ rw small (unfold digits_from in ground arith)
  | inr large ↦
      let front = digits_from-decimal_within fuel (n / 10) (ground arith) in
      rw (large, digits_from-append 0 (n % 10) (decimal_within fuel (n / 10)) (omega arith), front)
        (ap some (omega arith))
]

decimal_within-not_nil : (fuel n : ℕ) → is_nil (decimal_within (suc fuel) n) ≡ false
unfolding decimal_within
decimal_within-not_nil fuel n = elim (Bool-cases (ltb n 10)) [
  | inl small ↦ rw small refl
  | inr large ↦ rw large (append_not_nil (decimal_within fuel (n / 10)) (b'0' + n % 10))
]

unsigned-decimal : (n : ℕ) → unsigned (decimal n) ≡ some n
unfolding unsigned decimal
unsigned-decimal n =
    rw (decimal_within-not_nil n n) (digits_from-decimal_within (suc n) n (omega arith))

-- A text that starts with a sign is no numeral without one.
unsigned-digit :
    (c : ℕ) (text : Bytes) (n : ℕ)
    → unsigned (c ∷ text) ≡ some n
    → (leb b'0' c && leb c b'9') ≡ true
unfolding unsigned digits_from
unsigned-digit c text n e = ground arith

unsigned-nil : (n : ℕ) → unsigned [] ≡ some n → ⊥
unfolding unsigned
unsigned-nil n e = cc

parse_int-unsigned :
    (text : Bytes) (n : ℕ) → unsigned text ≡ some n → parse_int text ≡ positive (some n)
parse_int-unsigned [] n e = absurd (unsigned-nil n e)
parse_int-unsigned (c ∷ text) n e =
    let digit = unsigned-digit c text n e in
    let plus : (c == b'+') ≡ false = ground arith in
    let dash : (c == b'-') ≡ false = ground arith in unfold parse_int in rw (plus, dash, e) refl

-- The numeral of an integer.
abbrev pub numeral : ℤ → Bytes
numeral (pos n) = decimal n
numeral (negsuc n) = b'-' ∷ decimal (suc n)

-- The integers of 64 bits.
abbrev pub IsInt64 : ℤ → Type 0
IsInt64 (pos n) = n < 2 ^ 63
IsInt64 (negsuc n) = n < 2 ^ 63

parse_int-numeral : (v : ℤ) → IsInt64 v → parse_int (numeral v) ≡ some v
parse_int-numeral (pos n) h = parse_int-unsigned (decimal n) n (unsigned-decimal n) ∙ ground arith
parse_int-numeral (negsuc n) h =
    unfold parse_int in ap negative (unsigned-decimal (suc n)) ∙ ground arith

numeral-not_nil : (v : ℤ) → is_nil (numeral v) ≡ false
unfolding decimal
numeral-not_nil (pos n) = decimal_within-not_nil n n
numeral-not_nil (negsuc n) = refl

-- An integer of 64 bits is read from its numeral, whatever the fallback.
pub env_int-numeral : (v fallback : ℤ) → IsInt64 v → env_int (numeral v) fallback ≡ v
unfolding env_int
env_int-numeral v fallback h = rw (numeral-not_nil v, parse_int-numeral v h) refl
