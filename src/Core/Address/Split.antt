-- ===== src/Core/Address/Split.antt =====
-- internal/core/address.go: what `SplitAddress` returns, and which addresses it takes apart.
use mathlib.Core.Path.{subst}
use phenk.Prelude.{
  ℕ, ◌<◌, ◌≡◌, ◌≢◌, Bool, false, ◌==◌, map, if_either, if◌then◌else◌, [], ◌∷◌, Option, none, some,
  arith, Bytes, is_empty, any, All,
}
use phenk.Prelude.Result.{ok}
use phenk.Strings.Lower.{is_upper, lower_byte, to_lower, trim_space}
use phenk.Strings.Ascii.{IsAscii, to_lower_ascii, trim_space-All}
use phenk.Core.Address.{
  before, normalize_local_part, trim_prefix, trim_suffix, split_last, forbidden_in_domain,
  checked_parts, split_address,
}

-- A byte that lower-casing leaves alone.
abbrev pub IsLowered : ℕ → Type 0
IsLowered c = is_upper c ≡ false

map-IsLowered : (s : Bytes) → All IsLowered (map lower_byte s)
map-IsLowered [] = tt
map-IsLowered (c ∷ s) = (ground arith, map-IsLowered s)

to_lower-IsLowered : (s : Bytes) → All IsAscii s → All IsLowered (to_lower s)
to_lower-IsLowered s h = rw (to_lower_ascii s h) (map-IsLowered s)

module _ (P : ℕ → Type 0) (b : ℕ) where
  before-All : (s : Bytes) → All P s → All P (before b s)
  unfolding before
  before-All [] h = tt
  before-All (c ∷ s) h = ground (arith, before-All s h.1)

before-Lacks : (b : ℕ) (s : Bytes) → All (λ c. c ≢ b) (before b s)
unfolding before
before-Lacks b [] = tt
before-Lacks b (c ∷ s) = ground (arith, before-Lacks b s)

any-All : (p : ℕ → Bool) (s : Bytes) → any p s ≡ false → All (λ c. p c ≡ false) s
any-All p [] h = tt
any-All p (c ∷ s) h = ground (arith, any-All p s)

is_empty-ne : (s : Bytes) → is_empty s ≡ false → s ≢ []
is_empty-ne s h e = cc

-- A local part as it is looked up: not empty, no upper-case letter and no plus sign.
pub record IsLocal (l : Bytes) : Type 0 where
  pub some_byte : l ≢ []
  pub lowered : All IsLowered l
  pub no_plus : All (λ c. c ≢ b'+') l

-- A domain as it is looked up: not empty, no upper-case letter, no blank and no `@`.
pub record IsDomain (d : Bytes) : Type 0 where
  pub some_byte : d ≢ []
  pub lowered : All IsLowered d
  pub plain : All (λ c. forbidden_in_domain c ≡ false) d

-- Both checks passed, and the parts are what the two normalizations gave.
abbrev PassedChecks : Bytes → Bytes → Bytes → Bytes → Type 0
PassedChecks l₀ r₀ l d =
    (normalize_local_part l₀ ≡ l)
    × (to_lower (trim_space r₀) ≡ d)
    × (is_empty l ≡ false)
    × (is_empty d ≡ false)
    × (any forbidden_in_domain d ≡ false)

checked_parts-PassedChecks :
    (l₀ r₀ l d : Bytes) → checked_parts (some (l₀, r₀)) ≡ ok (l, d) → PassedChecks l₀ r₀ l d
unfolding checked_parts
checked_parts-PassedChecks l₀ r₀ l d h = ground arith

normalize-IsLowered : (s : Bytes) → All IsAscii s → All IsLowered (normalize_local_part s)
unfolding normalize_local_part
normalize-IsLowered s h =
    before-All IsLowered b'+' _ (to_lower-IsLowered (trim_space s) (trim_space-All s h))

normalize_no_plus : (s : Bytes) → All (λ c. c ≢ b'+') (normalize_local_part s)
unfolding normalize_local_part
normalize_no_plus s = before-Lacks b'+' (to_lower (trim_space s))

abbrev AreAscii : Option (Bytes × Bytes) → Type 0
AreAscii none = Unit
AreAscii (some (l, r)) = All IsAscii l × All IsAscii r

checked_parts_sound :
    (o : Option (Bytes × Bytes)) (l d : Bytes)
    → AreAscii o
    → checked_parts o ≡ ok (l, d)
    → IsLocal l × IsDomain d
checked_parts_sound none l d a h = unfold checked_parts in cc
checked_parts_sound (some (l₀, r₀)) l d a h =
    let (el, ed, nl, nd, plain) = checked_parts-PassedChecks l₀ r₀ l d h in
    (
      record {
        some_byte = is_empty-ne l nl;
        lowered = subst (All IsLowered) el (normalize-IsLowered l₀ a.0);
        no_plus = subst (All (λ c. c ≢ b'+')) el (normalize_no_plus l₀);
      },
      record {
        some_byte = is_empty-ne d nd;
        lowered =
            subst (All IsLowered) ed (to_lower-IsLowered (trim_space r₀) (trim_space-All r₀ a.1));
        plain = any-All forbidden_in_domain d plain;
      },
    )

trim_prefix-All : (b : ℕ) (s : Bytes) → All IsAscii s → All IsAscii (trim_prefix b s)
unfolding trim_prefix
trim_prefix-All b [] h = h
trim_prefix-All b (c ∷ s) h = if_either (All IsAscii) (c == b) h.1 h

trim_suffix-All : (b : ℕ) (s : Bytes) → All IsAscii s → All IsAscii (trim_suffix b s)
unfolding trim_suffix
trim_suffix-All b [] h = h
trim_suffix-All b (c ∷ []) h = if_either (All IsAscii) (c == b) tt h
trim_suffix-All b (c ∷ d ∷ s) h = (h.0, trim_suffix-All b (d ∷ s) h.1)

onto-AreAscii :
    (b c : ℕ) (s : Bytes) (o : Option (Bytes × Bytes))
    → c < 128
    → All IsAscii s
    → AreAscii o
    → AreAscii
        (elim o [ some (l, r) ↦ some (c ∷ l, r) | none ↦ if c == b then some ([], s) else none ])
onto-AreAscii b c s (some (l, r)) k h a = ((k, a.0), a.1)
onto-AreAscii b c s none k h a = if_either AreAscii (c == b) (tt, h) tt

split_last-AreAscii : (b : ℕ) (s : Bytes) → All IsAscii s → AreAscii (split_last b s)
unfolding split_last
split_last-AreAscii b [] h = tt
split_last-AreAscii b (c ∷ s) h =
    onto-AreAscii b c s (split_last b s) h.0 h.1 (split_last-AreAscii b s h.1)

-- Whatever address in ASCII `SplitAddress` accepts, the local part is not empty, has no upper-case
-- letter and no `+`, and the domain is not empty and has no upper-case letter, no space, no tab and
-- no `@`.
pub split_address_sound :
    (addr l d : Bytes) → All IsAscii addr → split_address addr ≡ ok (l, d) → IsLocal l × IsDomain d
unfolding split_address
split_address_sound addr l d a h =
    let inner = trim_suffix b'>' (trim_prefix b'<' (trim_space addr)) in
    checked_parts_sound (split_last b'@' inner) l d
      (split_last-AreAscii b'@' inner
        (trim_suffix-All b'>' _ (trim_prefix-All b'<' _ (trim_space-All addr a))))
      h
