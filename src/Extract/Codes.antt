-- ===== src/Extract/Codes.antt =====
-- internal/extract/extract.go: `Codes`.

pub mod Found
use phenk.Prelude.{
  ℕ, ◌+◌, Bool, not, ◌&&◌, Option, none, some, List, [], ◌∷◌, ◌++◌, map, ltb, ◌==◌, if◌then◌else◌,
  length, is_empty, take, any, Bytes, eq_bytes,
}
use phenk.Regexp.{matches, find_all}
use phenk.Strings.{trim_space, trim_right_bytes, split_at}
use phenk.Extract.{Code, max_codes, max_context, truncate, sort_stably}
use phenk.Extract.Candidates.{keywords, strong_lead, candidate, accept_candidate, is_digits}

pub record Scored : Type 0 where
  pub code : Code
  pub score : ℕ
  pub order : ℕ

-- `seen[value]`: the map holds exactly the values of the codes found so far.
unfoldable pub seen : Bytes → List Scored → Bool
seen value found = any (λ (f : Scored). eq_bytes f.code.value value) found

unfoldable pub score_of : Bool → Bytes → Bytes → ℕ
score_of same_line lead value =
    (if same_line then 2 else 1)
    + ((if matches strong_lead lead then 3 else 0)
        + ((if is_digits value then 1 else 0) + (if length value == 6 then 1 else 0)))

abbrev pub add_accepted : Bool → Bytes → ℕ → Option Bytes → List Scored → List Scored
add_accepted same_line line start none found = found
add_accepted same_line line start (some value) found =
    if seen value found
    then found
    else found
      ++ (record {
        code = record { value = value; context = truncate line max_context };
        score = score_of same_line (take start line) value;
        order = length found;
      }
          ∷ [])

-- The inner loop: the candidates of one line.
unfoldable pub add_candidates : Bool → Bytes → List (ℕ × ℕ) → List Scored → List Scored
unfolding accept_candidate
add_candidates same_line line [] found = found
add_candidates same_line line ((start, last) ∷ locs) found =
    add_candidates same_line line locs
      (add_accepted same_line line start (accept_candidate line start last) found)

abbrev pub is_return : ℕ → Bool
is_return c = c == 13

unfoldable pub trimmed_line : Bytes → Bytes
trimmed_line raw = trim_space (trim_right_bytes is_return raw)

-- `i > 0 && keywords.MatchString(previousNonEmpty(lines, i))`. The lines before stand with the
-- nearest first.
unfoldable pub previous_nonempty : List Bytes → Bytes
previous_nonempty [] = []
previous_nonempty (l ∷ ls) =
    let rest = previous_nonempty ls in if is_empty (trim_space l) then rest else trim_space l

abbrev pub is_ignored : List Bytes → Bytes → Bool
is_ignored previous line =
    not (matches keywords line)
    && not (not (is_empty previous) && matches keywords (previous_nonempty previous))

-- One round of the outer loop.
abbrev pub add_trimmed : List Bytes → Bytes → List Scored → List Scored
add_trimmed previous line found =
    if is_empty line
    then found
    else if is_ignored previous line
    then found
    else add_candidates (matches keywords line) line (find_all candidate line) found

unfoldable pub add_line : List Bytes → Bytes → List Scored → List Scored
unfolding add_candidates previous_nonempty trimmed_line
add_line previous raw found = add_trimmed previous (trimmed_line raw) found

unfoldable pub add_lines : List Bytes → List Bytes → List Scored → List Scored
unfolding add_line
add_lines previous [] found = found
add_lines previous (raw ∷ lines) found =
    add_lines (raw ∷ previous) lines (add_line previous raw found)

-- The order of the result: the higher score first, then the one that was found first.
abbrev pub stands_before : Scored → Scored → Bool
stands_before a b = if a.score == b.score then ltb a.order b.order else ltb b.score a.score

unfoldable pub found_codes : Bytes → Bytes → List Scored
unfolding add_lines
found_codes subject text = add_lines [] (subject ∷ split_at b'\n' text) []

unfoldable pub best_codes : Bytes → Bytes → List Scored
unfolding found_codes sort_stably
best_codes subject text = take max_codes (sort_stably stands_before (found_codes subject text))

unfoldable pub codes_of : Bytes → Bytes → List Code
unfolding best_codes
codes_of subject text = map (λ (f : Scored). f.code) (best_codes subject text)
