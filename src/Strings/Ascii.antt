-- ===== src/Strings/Ascii.antt =====
-- Package strings on texts in ASCII.
use phenk.Prelude.{ℕ, ◌<◌, ◌≡◌, refl, true, [], ◌∷◌, map, arith, every, All, Bytes}
use phenk.Strings.Lower.{is_ascii, lower_byte, to_lower, trim_left, trim_right, trim_space}

abbrev pub IsAscii : ℕ → Type 0
IsAscii c = c < 128

every_ascii : (s : Bytes) → All IsAscii s → every is_ascii s ≡ true
every_ascii [] h = refl
every_ascii (c ∷ s) h = ground (arith, every_ascii s h.1)

pub to_lower_ascii : (s : Bytes) → All IsAscii s → to_lower s ≡ map lower_byte s
unfolding to_lower
to_lower_ascii s h = rw (every_ascii s h) refl

pub trim_space_ascii : (s : Bytes) → All IsAscii s → trim_space s ≡ trim_right (trim_left s)
unfolding trim_space
trim_space_ascii s h = rw (every_ascii s h) refl

module _ (P : ℕ → Type 0) where
  trim_left-All : (s : Bytes) → All P s → All P (trim_left s)
  unfolding trim_left
  trim_left-All [] h = h
  trim_left-All (c ∷ s) h = ground (arith, trim_left-All s h.1)

  trim_right-All : (s : Bytes) → All P s → All P (trim_right s)
  unfolding trim_right
  trim_right-All [] h = h
  trim_right-All (c ∷ s) h = ground (arith, trim_right-All s h.1)

  pub trim_ends-All : (s : Bytes) → All P s → All P (trim_right (trim_left s))
  trim_ends-All s h = trim_right-All (trim_left s) (trim_left-All s h)

pub trim_space-All : (s : Bytes) → All IsAscii s → All IsAscii (trim_space s)
trim_space-All s h = rw (trim_space_ascii s h) (trim_ends-All IsAscii s h)
