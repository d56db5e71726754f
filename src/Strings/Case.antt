-- ===== src/Strings/Case.antt =====
-- Strings that lowering, trimming and the removal of a suffix leave as they are.
use dnswatcher.Prelude.{ℕ, ◌≡◌, refl, true, false, [], ◌∷◌, map, All, all-All, Bytes}
use dnswatcher.Strings.{
  Unicode, is_ascii_byte, is_ascii, lower_byte, is_space, trim_left, push_trimmed, trim_right,
  to_lower, trim_space, valid_string,
}

-- An ASCII byte that is neither upper case nor white space.
pub record IsSettled (c : ℕ) : Type 0 where
  pub ascii : is_ascii_byte c ≡ true
  pub lower : lower_byte c ≡ c
  pub solid : is_space c ≡ false

map-lower_byte_of_IsSettled : (s : Bytes) → All IsSettled s → map lower_byte s ≡ s
map-lower_byte_of_IsSettled [] h = refl
map-lower_byte_of_IsSettled (c ∷ s) (h, hs) = cc (h.lower, map-lower_byte_of_IsSettled s hs)

push_trimmed_of_solid : (c : ℕ) (s : Bytes) → is_space c ≡ false → push_trimmed c s ≡ c ∷ s
push_trimmed_of_solid c [] h = rw h
push_trimmed_of_solid c (d ∷ s) h = refl

trim_right_of_IsSettled : (s : Bytes) → All IsSettled s → trim_right s ≡ s
unfolding trim_right
trim_right_of_IsSettled [] h = refl
trim_right_of_IsSettled (c ∷ s) (h, hs) =
    rw (trim_right_of_IsSettled s hs) (push_trimmed_of_solid c s h.solid)

trim_left_of_IsSettled : (s : Bytes) → All IsSettled s → trim_left s ≡ s
unfolding trim_left
trim_left_of_IsSettled [] h = refl
trim_left_of_IsSettled (c ∷ s) (h, hs) = rw h.solid

pub is_ascii_of_IsSettled : (s : Bytes) → All IsSettled s → is_ascii s ≡ true
unfolding is_ascii
is_ascii_of_IsSettled s h = all-All IsSettled is_ascii_byte (λ c k. k.ascii) s h

module _ (unicode : Unicode) (s : Bytes) (h : All IsSettled s) where
  pub to_lower_of_IsSettled : to_lower unicode s ≡ s
  unfolding to_lower
  to_lower_of_IsSettled = rw (is_ascii_of_IsSettled s h) (map-lower_byte_of_IsSettled s h)

  pub trim_space_of_IsSettled : trim_space unicode s ≡ s
  unfolding trim_space
  trim_space_of_IsSettled =
      rw (is_ascii_of_IsSettled s h, trim_left_of_IsSettled s h) (trim_right_of_IsSettled s h)

  pub valid_string_of_IsSettled : valid_string unicode s ≡ true
  unfolding valid_string
  valid_string_of_IsSettled = rw (is_ascii_of_IsSettled s h)
