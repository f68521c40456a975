-- ===== src/Extract/Codes/Found.antt =====
-- internal/extract/extract.go: what `Codes` returns.
use phenk.Prelude.{
  ℕ, ◌<◌, ◌≤◌, ◌≡◌, ◌≢◌, ◌⊎◌, ◌∙◌, ◌++◌, ◌==◌, All-imp, length-append, inl, inr, refl, Bool, true,
  false, Option, none, some, List, [], ◌∷◌, arith, if_either, Bool-cases, length, is_empty,
  length-map, All-map, All-take, All, All-append, length-take-le, Bytes,
}
use mathlib.Core.Logic.{◌∨₁◌}
use mathlib.Core.HLevel.{¬_prop}
use mathlib.Core.Bool.{Bool-set}
use mathlib.Core.Logic.Or
use mathlib.Core.List.{
  Mem, Pairwise, Pairwise-map, Pairwise-append, Pairwise-singleton, forall_mem-cons, not-mem-nil,
}
use mathlib.Core.List.Pairwise
use phenk.Extract.{Code, max_codes, sort_stably}
use phenk.Regexp.{matches, find_all}
use phenk.Strings.{split_at}
use phenk.Extract.Sorting.{
  Pairwise-take, sort_strictly, sort_strictly_best, All-sort_stably, WeakOrder,
}
use phenk.Extract.Distinct.{IsDistinct, snoc-IsDistinct, first_sorted-IsDistinct}
use phenk.Extract.Candidates.{
  keywords, candidate, accept_candidate, without_grouping, slice, part_of_something_longer,
  accepted, is_year, has_digit,
}
use phenk.Extract.Codes.{
  Scored, seen, add_accepted, add_candidates, add_line, add_trimmed, is_ignored, add_lines,
  found_codes, codes_of, best_codes, stands_before, trimmed_line,
}

-- What every code is: four to eight bytes with a digit among them, and no year.
pub IsCodeValue : Bytes → Type 0
IsCodeValue v = (4 ≤ length v) × (length v ≤ 8) × (has_digit v ≡ true) × (is_year v ≡ false)

abbrev pub IsCode : Scored → Type 0
IsCode f = IsCodeValue f.code.value

abbrev value_in : Scored → Bytes
value_in f = f.code.value

-- Every element is a code, and no value stands twice.
abbrev pub IsFound : List Scored → Type 0
IsFound fs = All IsCode fs × IsDistinct value_in fs

accepted-IsCodeValue : (w : Bytes) (b : Bool) (v : Bytes) → accepted w b ≡ some v → IsCodeValue v
unfolding accepted IsCodeValue
accepted-IsCodeValue w b v h = ground arith

accept_candidate-IsCodeValue :
    (line : Bytes) (a b : ℕ) (v : Bytes) → accept_candidate line a b ≡ some v → IsCodeValue v
unfolding accept_candidate
accept_candidate-IsCodeValue line a b v h =
    accepted-IsCodeValue (without_grouping (slice line a b)) (part_of_something_longer line a b) v h

below_of_mem :
    (fs : List Scored) (n : ℕ)
    → All (λ (f : Scored). f.order < n) fs
    → (a : Scored) → Mem a fs
    → a.order ≢ n
below_of_mem [] n h = λ a m. absurd (not-mem-nil m)
below_of_mem (f ∷ fs) n h =
    (forall_mem-cons (λ _. ¬_prop)).1 ((λ e. omega (arith, h.0)), below_of_mem fs n h.1)

-- No order is higher than there are elements before it, and none stands twice.
abbrev pub IsCounted : List Scored → Type 0
IsCounted fs =
    All (λ (f : Scored). f.order < length fs) fs × IsDistinct (λ (f : Scored). f.order) fs

abbrev IsGathered : List Scored → Type 0
IsGathered fs = IsFound fs × IsCounted fs

snoc-IsCounted :
    (found : List Scored) (f : Scored)
    → f.order ≡ length found
    → IsCounted found
    → IsCounted (found ++ (f ∷ []))
snoc-IsCounted found f e h = (
  All-append (λ (g : Scored). g.order < length (found ++ (f ∷ []))) found _
      (All-imp (λ (g : Scored). g.order < length found) _
        (λ g k. omega (arith, length-append found (f ∷ []))) found h.0)
      (omega (arith, length-append found (f ∷ [])), tt),
  (Pairwise-append (λ _ _. ¬_prop)).1 (
    h.1,
    Pairwise-singleton _ f,
    λ a m.
        (forall_mem-cons (λ _. ¬_prop)).1
          ((λ k. below_of_mem found (length found) h.0 a m (k ∙ e)), λ b n. absurd (not-mem-nil n)),
  ),
)

module _ (same_line : Bool) (line : Bytes) where
  add_accepted-IsGathered :
      (start : ℕ) (o : Option Bytes) (found : List Scored)
      → ((v : Bytes) → o ≡ some v → IsCodeValue v)
      → IsGathered found
      → IsGathered (add_accepted same_line line start o found)
  unfolding seen
  add_accepted-IsGathered start none found c h = h
  add_accepted-IsGathered start (some v) found c h = elim (Bool-cases (seen v found)) [
    | inl e ↦ rw e h
    | inr e ↦ rw e (
      (All-append IsCode found _ h.0.0 (c v refl, tt), snoc-IsDistinct value_in found _ e h.0.1),
      snoc-IsCounted found _ refl h.1,
    )
  ]

  add_candidates-IsGathered :
      (locs : List (ℕ × ℕ)) (found : List Scored)
      → IsGathered found
      → IsGathered (add_candidates same_line line locs found)
  unfolding add_candidates
  add_candidates-IsGathered [] found h = h
  add_candidates-IsGathered ((start, last) ∷ locs) found h = add_candidates-IsGathered locs _ (
      add_accepted-IsGathered start (accept_candidate line start last) found
        (accept_candidate-IsCodeValue line start last) h)

add_trimmed-IsGathered :
    (previous : List Bytes) (line : Bytes) (found : List Scored)
    → IsGathered found
    → IsGathered (add_trimmed previous line found)
add_trimmed-IsGathered previous line found h = if_either IsGathered (is_empty line) h (
    if_either IsGathered (is_ignored previous line) h
      (add_candidates-IsGathered (matches keywords line) line (find_all candidate line) found h))

add_line-IsGathered :
    (previous : List Bytes) (raw : Bytes) (found : List Scored)
    → IsGathered found
    → IsGathered (add_line previous raw found)
unfolding add_line
add_line-IsGathered previous raw found h =
    add_trimmed-IsGathered previous (trimmed_line raw) found h

add_lines-IsGathered :
    (previous lines : List Bytes) (found : List Scored)
    → IsGathered found
    → IsGathered (add_lines previous lines found)
unfolding add_lines
add_lines-IsGathered previous [] found h = h
add_lines-IsGathered previous (raw ∷ lines) found h =
    add_lines-IsGathered (raw ∷ previous) lines _ (add_line-IsGathered previous raw found h)

pub found_codes-IsGathered : (subject text : Bytes) → IsGathered (found_codes subject text)
unfolding found_codes
found_codes-IsGathered subject text =
    add_lines-IsGathered [] (subject ∷ split_at b'\n' text) []
      ((tt, Pairwise.nil), (tt, Pairwise.nil))

stands_before-WeakOrder : WeakOrder stands_before
stands_before-WeakOrder = record { asym = λ a b h. ground arith; keeps = λ a b c h k. ground arith }

best_codes-IsFound : (subject text : Bytes) → IsFound (best_codes subject text)
unfolding best_codes
best_codes-IsFound subject text =
    let found = found_codes subject text in
    let h = (found_codes-IsGathered subject text).0 in
    let sorted = sort_stably stands_before found in
    (
      All-take IsCode max_codes sorted (All-sort_stably stands_before IsCode found h.0),
      first_sorted-IsDistinct value_in stands_before max_codes found h.1,
    )

-- At most three codes are returned, each is four to eight bytes with a digit and no year, and no
-- value is returned twice.
pub codes_of-are_codes :
    (subject text : Bytes)
    → (length (codes_of subject text) ≤ max_codes)
      × All (λ (c : Code). IsCodeValue c.value) (codes_of subject text)
      × IsDistinct (λ (c : Code). c.value) (codes_of subject text)
unfolding codes_of best_codes
codes_of-are_codes subject text =
    let best = best_codes subject text in
    let h = best_codes-IsFound subject text in
    let code_in = λ (f : Scored). f.code in
    (
      omega (
        arith,
        length-map code_in best,
        length-take-le max_codes (sort_stably stands_before (found_codes subject text)),
      ),
      All-map (λ (c : Code). IsCodeValue c.value) code_in best h.0,
      (Pairwise-map (λ _ _. ¬_prop) code_in).1 h.1,
    )

-- The order of the codes: the higher score first, then the one that was found first.
abbrev pub Outranks : Scored → Scored → Type 0
Outranks g f = (f.score < g.score) ⊎ ((g.score ≡ f.score) × (g.order < f.order))

stands_before_total :
    (f g : Scored) → stands_before g f ≡ false → f.order ≢ g.order → stands_before f g ≡ true
stands_before_total f g h k = ground arith

stands_before-Outranks : (g f : Scored) → stands_before g f ≡ true → Outranks g f
stands_before-Outranks g f h = elim (Bool-cases (g.score == f.score)) [
  | inl e ↦ inr (ground arith)
  | inr e ↦ inl (ground arith)
]

-- The codes that are returned are the best of those found, the best first: each has a higher score
-- than the next, or the same one and was found before it; and so has every code that is returned
-- against each code that was found and is not returned.
pub codes_of-are_best :
    (subject text : Bytes) (f : Scored)
    → Mem f (found_codes subject text)
    → Pairwise Outranks (best_codes subject text)
      × (Mem f (best_codes subject text)
          ∨₁ All (λ (g : Scored). Outranks g f) (best_codes subject text))
unfolding best_codes
codes_of-are_best subject text f m =
    let found = found_codes subject text in
    let apart = (found_codes-IsGathered subject text).1.1 in
    let key = λ (f : Scored). f.order in
    (
      Pairwise.imp stands_before-Outranks (
          Pairwise-take max_codes (sort_stably stands_before found) (λ _ _. Bool-set _ _)
            (sort_strictly stands_before stands_before-WeakOrder key stands_before_total found
              apart)),
      Or.imp (λ k. k)
          (All-imp (λ (g : Scored). stands_before g f ≡ true) (λ (g : Scored). Outranks g f)
            (λ g k. stands_before-Outranks g f k) (best_codes subject text))
          (sort_strictly_best stands_before stands_before-WeakOrder key stands_before_total
            max_codes found f apart m),
    )
