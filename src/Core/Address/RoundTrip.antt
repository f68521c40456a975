-- ===== src/Core/Address/RoundTrip.antt =====
-- internal/core/address.go: `SplitAddress` of an address in the form that a client sends.
use mathlib.Core.List.{map-append}
use phenk.Prelude.{
  ℕ, ◌<◌, ◌≡◌, ◌≢◌, All-append, refl, false, [], ◌∷◌, ◌++◌, map, none, some, arith, Bytes, is_empty,
  any, All, All-imp, ==_refl,
}
use phenk.Prelude.Result.{ok}
use phenk.Strings.Lower.{
  is_space, is_upper, lower_byte, to_lower, trim_left, trim_right, trim_space,
}
use phenk.Strings.Ascii.{IsAscii, to_lower_ascii, trim_space_ascii, trim_space-All}
use phenk.Core.Address.{
  before, normalize_local_part, trim_suffix, split_last, forbidden_in_domain, checked_parts,
  split_address,
}

-- A byte of a local part, in ASCII, that no trimming, lower-casing or tag removal touches.
abbrev pub IsPlainLocal : ℕ → Type 0
IsPlainLocal c = (is_space c ≡ false) × (is_upper c ≡ false) × (c ≢ b'+') × (c < 128)

abbrev pub IsPlainDomain : ℕ → Type 0
IsPlainDomain c = (is_space c ≡ false) × (is_upper c ≡ false) × (c ≢ b'@') × (c < 128)

is_empty-append : (s : Bytes) (c : ℕ) (t : Bytes) → is_empty (s ++ c ∷ t) ≡ false
is_empty-append [] c t = refl
is_empty-append (b ∷ s) c t = refl

trim_right-append :
    (s : Bytes) (c : ℕ) (t : Bytes)
    → is_space c ≡ false
    → trim_right (s ++ c ∷ t) ≡ s ++ c ∷ trim_right t
unfolding trim_right
trim_right-append [] c t h = ground arith
trim_right-append (b ∷ s) c t h =
    ground (arith, trim_right-append s c t, is_empty-append s c (trim_right t))

split_last-none : (b : ℕ) (s : Bytes) → All (λ c. c ≢ b) s → split_last b s ≡ none
unfolding split_last
split_last-none b [] h = refl
split_last-none b (c ∷ s) h = ground (arith, split_last-none b s h.1)

split_last-append :
    (b : ℕ) (l r : Bytes) → All (λ c. c ≢ b) r → split_last b (l ++ b ∷ r) ≡ some (l, r)
unfolding split_last
split_last-append b [] r h = rw (split_last-none b r h) (rw (==_refl b))
split_last-append b (c ∷ l) r h = rw (split_last-append b l r h)

trim_suffix-append : (b : ℕ) (s : Bytes) → trim_suffix b (s ++ b ∷ []) ≡ s
unfolding trim_suffix
trim_suffix-append b [] = rw (==_refl b)
trim_suffix-append b (c ∷ []) = rw (==_refl b)
trim_suffix-append b (c ∷ d ∷ s) = rw (trim_suffix-append b (d ∷ s))

before-append : (b : ℕ) (l t : Bytes) → All (λ c. c ≢ b) l → before b (l ++ b ∷ t) ≡ l
unfolding before
before-append b [] t h = ground arith
before-append b (c ∷ l) t h = ground (arith, before-append b l t h.1)

map-lower_byte : (s : Bytes) → All (λ c. is_upper c ≡ false) s → map lower_byte s ≡ s
map-lower_byte [] h = refl
map-lower_byte (c ∷ s) h = ground (arith, map-lower_byte s h.1)

trim_left-plain : (s : Bytes) → All (λ c. is_space c ≡ false) s → trim_left s ≡ s
unfolding trim_left
trim_left-plain [] h = refl
trim_left-plain (c ∷ s) h = rw h.0

trim_right-plain : (s : Bytes) → All (λ c. is_space c ≡ false) s → trim_right s ≡ s
unfolding trim_right
trim_right-plain [] h = refl
trim_right-plain (c ∷ s) h = ground (arith, trim_right-plain s h.1)

trim_left_tagged :
    (l tag : Bytes) → All IsPlainLocal l → trim_left (l ++ b'+' ∷ tag) ≡ l ++ b'+' ∷ tag
unfolding trim_left
trim_left_tagged [] tag h = refl
trim_left_tagged (c ∷ l) tag h = rw h.0.0

tagged-All : (l tag : Bytes) → All IsPlainLocal l → All IsAscii tag → All IsAscii (l ++ b'+' ∷ tag)
tagged-All l tag h a =
    All-append IsAscii l _ (All-imp IsPlainLocal IsAscii (λ c p. p.3) l h) (omega arith, a)

normalize_tagged :
    (l tag : Bytes)
    → All IsPlainLocal l
    → All IsAscii tag
    → normalize_local_part (l ++ b'+' ∷ tag) ≡ l
unfolding normalize_local_part
normalize_tagged l tag h a =
    let whole = tagged-All l tag h a in
    rw (to_lower_ascii _ (trim_space-All _ whole), trim_space_ascii _ whole)
      (rw (trim_left_tagged l tag h) (
        rw (trim_right-append l b'+' tag refl) (
          rw map-append (
            rw (map-lower_byte l (All-imp IsPlainLocal (λ c. is_upper c ≡ false) (λ c p. p.1) l h))
              (before-append b'+' l _ (All-imp IsPlainLocal (λ c. c ≢ b'+') (λ c p. p.2) l h))))))

normalize_domain : (d : Bytes) → All IsPlainDomain d → to_lower (trim_space d) ≡ d
normalize_domain d h =
    let ascii = All-imp IsPlainDomain IsAscii (λ c p. p.3) d h in
    let blanks = All-imp IsPlainDomain (λ c. is_space c ≡ false) (λ c p. p.0) d h in
    rw (to_lower_ascii _ (trim_space-All d ascii), trim_space_ascii d ascii)
      (rw (trim_left-plain d blanks) (
        rw (trim_right-plain d blanks)
          (map-lower_byte d (All-imp IsPlainDomain (λ c. is_upper c ≡ false) (λ c p. p.1) d h))))

any_forbidden : (d : Bytes) → All IsPlainDomain d → any forbidden_in_domain d ≡ false
any_forbidden [] h = refl
any_forbidden (c ∷ d) h = ground (arith, any_forbidden d h.1)

is_empty_of_ne : (s : Bytes) → s ≢ [] → is_empty s ≡ false
is_empty_of_ne [] h = absurd (h refl)
is_empty_of_ne (c ∷ s) h = refl

checked_parts_tagged :
    (l tag d : Bytes)
    → l ≢ []
    → d ≢ []
    → All IsPlainLocal l
    → All IsAscii tag
    → All IsPlainDomain d
    → checked_parts (some (l ++ b'+' ∷ tag, d)) ≡ ok (l, d)
unfolding checked_parts
checked_parts_tagged l tag d nl nd hl ht hd = rw (is_empty-append l b'+' tag) (
    rw (is_empty_of_ne d nd) (
      rw (normalize_tagged l tag hl ht) (
        rw (is_empty_of_ne l nl)
          (rw (normalize_domain d hd) (rw (is_empty_of_ne d nd) (rw (any_forbidden d hd)))))))

-- The path as a client sends it, `<local+tag@domain>`.
abbrev pub tagged_path : Bytes → Bytes → Bytes → Bytes
tagged_path l tag d = (b'<' ∷ ((l ++ b'+' ∷ tag) ++ b'@' ∷ d)) ++ b'>' ∷ []

path-All :
    (l tag d : Bytes)
    → All IsPlainLocal l
    → All IsAscii tag
    → All IsPlainDomain d
    → All IsAscii (tagged_path l tag d)
path-All l tag d h a k = (
  omega arith,
  All-append IsAscii _ _
      (All-append IsAscii (l ++ b'+' ∷ tag) _ (tagged-All l tag h a)
        (omega arith, All-imp IsPlainDomain IsAscii (λ c p. p.3) d k))
      (omega arith, tt),
)

-- A path `<local+tag@domain>` in ASCII whose local part and domain are not empty, have no blank and no
-- upper-case letter, the local part no `+` and the domain no `@`, is split into that local part
-- and that domain, whatever the tag is.
pub split_address_tagged :
    (l tag d : Bytes)
    → l ≢ []
    → d ≢ []
    → All IsPlainLocal l
    → All IsAscii tag
    → All IsPlainDomain d
    → split_address (tagged_path l tag d) ≡ ok (l, d)
unfolding split_address
split_address_tagged l tag d nl nd hl ht hd =
    rw (trim_space_ascii (tagged_path l tag d) (path-All l tag d hl ht hd)) (
      rw (trim_right-append (b'<' ∷ ((l ++ b'+' ∷ tag) ++ b'@' ∷ d)) b'>' [] refl) (
        rw (trim_suffix-append b'>' ((l ++ b'+' ∷ tag) ++ b'@' ∷ d)) (
          rw
            (split_last-append b'@' (l ++ b'+' ∷ tag) d
              (All-imp IsPlainDomain (λ c. c ≢ b'@') (λ c p. p.2) d hd))
            (checked_parts_tagged l tag d nl nd hl ht hd))))
