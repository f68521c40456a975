-- ===== src/Mimeparse/Names.antt =====
-- internal/mimeparse/mimeparse.go: what a text of a header and a file name may hold.
use phenk.Prelude.{
  ℕ, zero, suc, ◌≤◌, ◌≡◌, ◌≢◌, inl, inr, refl, Bool, false, ◌&&◌, [], ◌∷◌, arith, ltb, ◌==◌,
  if_either, Bool-cases, length, is_empty, drop, All-take, All-drop, All, length-take-le, Bytes,
}
use phenk.Strings.{
  trim_space, trim_left, trim_left_for, trim_right, is_all_space, space_len, to_valid_utf8,
  trim_bytes, trim_left_bytes, trim_right_bytes,
}
use phenk.Mimeparse.{
  is_control, is_dot, without_controls, sanitize_header_text, with_slashes, base_name, has_slash,
  shortened, max_filename, safe_filename,
}

module _ (P : ℕ → Type 0) where
  trim_left_for-All : (fuel : ℕ) (s : Bytes) → All P s → All P (trim_left_for fuel s)
  unfolding trim_left_for
  trim_left_for-All zero s h = h
  trim_left_for-All (suc fuel) s h =
      if_either (All P) (space_len s == 0) h
        (trim_left_for-All fuel (drop (space_len s) s) (All-drop P (space_len s) s h))

  trim_right-All : (s : Bytes) → All P s → All P (trim_right s)
  unfolding trim_right
  trim_right-All [] h = tt
  trim_right-All (c ∷ s) h = if_either (All P) (is_all_space (c ∷ s)) tt (h.0, trim_right-All s h.1)

  pub trim_space-All : (s : Bytes) → All P s → All P (trim_space s)
  unfolding trim_space trim_left
  trim_space-All s h = trim_right-All (trim_left s) (trim_left_for-All (length s) s h)

  trim_left_bytes-All : (p : ℕ → Bool) (s : Bytes) → All P s → All P (trim_left_bytes p s)
  unfolding trim_left_bytes
  trim_left_bytes-All p [] h = tt
  trim_left_bytes-All p (c ∷ s) h = if_either (All P) (p c) (trim_left_bytes-All p s h.1) h

  trim_right_bytes-All : (p : ℕ → Bool) (s : Bytes) → All P s → All P (trim_right_bytes p s)
  unfolding trim_right_bytes
  trim_right_bytes-All p [] h = tt
  trim_right_bytes-All p (c ∷ s) h =
      if_either (All P) (is_empty (trim_right_bytes p s) && p c) tt
        (h.0, trim_right_bytes-All p s h.1)

  trim_bytes-All : (p : ℕ → Bool) (s : Bytes) → All P s → All P (trim_bytes p s)
  unfolding trim_bytes
  trim_bytes-All p s h = trim_right_bytes-All p (trim_left_bytes p s) (trim_left_bytes-All p s h)

abbrev pub IsPrintable : ℕ → Type 0
IsPrintable c = is_control c ≡ false

without_controls-All : (s : Bytes) → All IsPrintable (without_controls s)
unfolding without_controls
without_controls-All [] = tt
without_controls-All (c ∷ s) =
    if_either (All IsPrintable) (c == 9) (refl, without_controls-All s)
      (elim (Bool-cases (is_control c)) [
        | inl h ↦ rw h (without_controls-All s)
        | inr h ↦ rw h (h, without_controls-All s)
      ])

-- A text of a header comes out without control characters: no line break and no tab is left.
pub sanitize_header_text-IsPrintable : (s : Bytes) → All IsPrintable (sanitize_header_text s)
unfolding sanitize_header_text
sanitize_header_text-IsPrintable s =
    trim_space-All IsPrintable (without_controls (to_valid_utf8 s))
      (without_controls-All (to_valid_utf8 s))

-- What a byte of a file name is: no control character, no slash and no backslash.
abbrev pub IsNameByte : ℕ → Type 0
IsNameByte c = IsPrintable c × (c ≢ b'/') × (c ≢ b'\\')

abbrev IsPathByte : ℕ → Type 0
IsPathByte c = IsPrintable c × (c ≢ b'\\')

with_slashes-All : (s : Bytes) → All IsPrintable s → All IsPathByte (with_slashes s)
unfolding with_slashes
with_slashes-All [] h = tt
with_slashes-All (c ∷ s) h = (ground (arith, h.0), with_slashes-All s h.1)

slashless-All : (s : Bytes) → has_slash s ≡ false → All IsPathByte s → All IsNameByte s
slashless-All [] e h = tt
slashless-All (c ∷ s) e h =
    let k : (c ≢ b'/') × (has_slash s ≡ false) = ground (arith, e) in
    ((h.0.0, k.0, h.0.1), slashless-All s k.1 h.1)

base_name-All : (s : Bytes) → All IsPathByte s → All IsNameByte (base_name s)
unfolding base_name
base_name-All [] h = tt
base_name-All (c ∷ s) h = elim (Bool-cases (has_slash s)) [
  | inl e ↦ rw e (base_name-All s h.1)
  | inr e ↦ elim (Bool-cases (c == b'/')) [
    | inl k ↦ rw (e, k) (slashless-All s e h.1)
    | inr k ↦ rw (e, k) ((h.0.0, ground (arith, k), h.0.1), slashless-All s e h.1)
  ]
]

shortened-All : (P : ℕ → Type 0) (s : Bytes) → All P s → All P (shortened s)
shortened-All P s h =
    if_either (All P) (ltb max_filename (length s)) (All-take P max_filename s h) h

length-shortened-le : (s : Bytes) → length (shortened s) ≤ max_filename
length-shortened-le s = elim (Bool-cases (ltb max_filename (length s))) [
  | inl e ↦ rw e (length-take-le max_filename s)
  | inr e ↦ rw e (ground (arith, e))
]

-- A file name that is kept has at most 255 bytes, none of them a control character, a slash or a
-- backslash.
pub safe_filename-IsSafe :
    (name : Bytes)
    → (length (safe_filename name) ≤ max_filename) × All IsNameByte (safe_filename name)
unfolding safe_filename
safe_filename-IsSafe name =
    let base = base_name (with_slashes (sanitize_header_text name)) in
    (
      length-shortened-le (trim_space (trim_bytes is_dot base)),
      shortened-All IsNameByte (trim_space (trim_bytes is_dot base)) (
          trim_space-All IsNameByte (trim_bytes is_dot base) (
            trim_bytes-All IsNameByte is_dot base (
              base_name-All (with_slashes (sanitize_header_text name)) (
                with_slashes-All (sanitize_header_text name)
                  (sanitize_header_text-IsPrintable name))))),
    )
