-- ===== src/Regexp.antt =====
-- Package regexp as far as the program uses it: expressions over the bytes of a text in UTF-8, with
-- the leftmost match that prefers the first alternative and the longest repetition. Every character
-- class of the program's patterns is ASCII, or holds all of the other characters.
use phenk.Prelude.{
  ℕ, zero, suc, ◌+◌, ◌-◌, Bool, true, false, not, ◌&&◌, ◌||◌, Option, none, some, List, [], ◌∷◌,
  ◌++◌, map, leb, ◌==◌, if◌then◌else◌, length, is_empty, keep, any, Bytes, codes,
}
use Prim.Native.String.{String}

pub data Regex : Type 0 where
  nothing : Regex
  byte_of : (ℕ → Bool) → Regex
  then_ or_ : Regex → Regex → Regex
  many : Regex → Regex
  word_boundary at_end : Regex

infixr 6 ◌&◌
abbrev pub ◌&◌ : Regex → Regex → Regex
r & q = then_ r q

infixr 5 ◌or◌
abbrev pub ◌or◌ : Regex → Regex → Regex
r or q = or_ r q

abbrev pub is_digit : ℕ → Bool
is_digit c = leb b'0' c && leb c b'9'

abbrev pub is_upper_or_digit : ℕ → Bool
is_upper_or_digit c = (leb b'A' c && leb c b'Z') || is_digit c

-- `\w` and `\s`
abbrev pub is_word : ℕ → Bool
is_word c = is_upper_or_digit c || ((leb b'a' c && leb c b'z') || c == b'_')

abbrev pub is_blank : ℕ → Bool
is_blank c = c == 9 || (c == 10 || (c == 12 || (c == 13 || c == 32)))

abbrev pub one_of : Bytes → Regex
one_of s = byte_of (λ (c : ℕ). any (λ (d : ℕ). d == c) s)

abbrev pub bytes : Bytes → Regex
bytes [] = nothing
bytes (c ∷ s) = byte_of (λ (d : ℕ). d == c) & bytes s

abbrev pub text : String → Regex
text s = bytes (codes s)

-- A letter under `(?i)`: its two cases, and the characters that fold to `k` and `s`, which are the
-- Kelvin sign and the long s.
abbrev pub is_lower : ℕ → Bool
is_lower c = leb b'a' c && leb c b'z'

abbrev pub either_case : ℕ → Regex
either_case c = byte_of (λ (d : ℕ). d == c || (is_lower c && (d + 32 == c)))

abbrev pub kelvin_sign : Regex
kelvin_sign = bytes (226 ∷ 132 ∷ 170 ∷ [])

abbrev pub long_s : Regex
long_s = bytes (197 ∷ 191 ∷ [])

abbrev pub letter : ℕ → Regex
letter c =
    if c == b'k'
    then either_case c or kelvin_sign
    else if c == b's'
    then either_case c or long_s
    else either_case c

-- An ASCII word in lower case under `(?i)`
abbrev pub folded : Bytes → Regex
folded [] = nothing
folded (c ∷ s) = letter c & folded s

abbrev pub word : String → Regex
word s = folded (codes s)

-- `r?`, `r+` and `r{m,n}`
abbrev pub maybe : Regex → Regex
maybe r = r or nothing

abbrev pub some_of : Regex → Regex
some_of r = r & many r

abbrev pub times : ℕ → Regex → Regex
times zero r = nothing
times (suc n) r = r & times n r

abbrev pub up_to : ℕ → Regex → Regex
up_to zero r = nothing
up_to (suc n) r = maybe (r & up_to n r)

abbrev pub between : ℕ → ℕ → Regex → Regex
between m n r = times m r & up_to (n - m) r

-- The first of several
abbrev pub choice : Regex → List Regex → Regex
choice r [] = r
choice r (q ∷ qs) = r or choice q qs

-- A place in a text: the byte before it, when there is one, and the bytes behind it.
abbrev pub Place : Type 0
Place = Option ℕ × Bytes

abbrev pub advance : ℕ → Place → Place
advance zero p = p
advance (suc n) (b, []) = (b, [])
advance (suc n) (b, c ∷ s) = advance n (some c, s)

abbrev pub word_before : Option ℕ → Bool
word_before none = false
word_before (some c) = is_word c

abbrev pub word_behind : Bytes → Bool
word_behind [] = false
word_behind (c ∷ s) = is_word c

abbrev pub differs : Bool → Bool → Bool
differs true b = not b
differs false b = b

abbrev pub only_if : Bool → List ℕ
only_if true = 0 ∷ []
only_if false = []

abbrev pub first_byte : (ℕ → Bool) → Bytes → List ℕ
first_byte p [] = []
first_byte p (c ∷ s) = if p c then 1 ∷ [] else []

-- A way to match from a place: the lengths of the matches, the preferred one first.
abbrev pub Way : Type 0
Way = Place → List ℕ

-- Behind each length, the matches that go on from there.
abbrev pub onward : Way → Place → List ℕ → List ℕ
onward w p [] = []
onward w p (n ∷ ns) = map (λ (m : ℕ). n + m) (w (advance n p)) ++ onward w p ns

abbrev pub longer : List ℕ → List ℕ
longer = keep (λ (n : ℕ). not (n == 0))

-- Repetition, each round of at least one byte, so as many rounds as there are bytes are enough.
unfoldable pub repeated : Way → ℕ → Way
repeated w zero p = 0 ∷ []
repeated w (suc fuel) p = onward (repeated w fuel) p (longer (w p)) ++ (0 ∷ [])

unfoldable pub ends : Regex → Way
unfolding repeated
ends nothing p = 0 ∷ []
ends (byte_of t) p = first_byte t p.1
ends (then_ r q) p = onward (ends q) p (ends r p)
ends (or_ r q) p = ends r p ++ ends q p
ends (many r) p = repeated (ends r) (length p.1) p
ends word_boundary p = only_if (differs (word_before p.0) (word_behind p.1))
ends at_end p = only_if (is_empty p.1)

-- The leftmost match at or behind a place that stands `n` bytes from the start of the text.
abbrev pub starting : ℕ → List ℕ → Option (ℕ × ℕ) → Option (ℕ × ℕ)
starting n [] rest = rest
starting n (m ∷ ms) rest = some (n, n + m)

unfoldable pub find_from : Regex → Option ℕ → ℕ → Bytes → Option (ℕ × ℕ)
unfolding ends
find_from r b n [] = starting n (ends r (b, [])) none
find_from r b n (c ∷ s) = starting n (ends r (b, c ∷ s)) (find_from r (some c) (suc n) s)

abbrev pub is_some : {A : Type 0} → Option A → Bool
is_some none = false
is_some (some a) = true

-- Regexp.MatchString
unfoldable pub matches : Regex → Bytes → Bool
unfolding find_from
matches r s = is_some (find_from r none 0 s)

-- Regexp.FindAllStringIndex for an expression that matches no empty text: each match is sought
-- behind the end of the one before, so as many rounds as there are bytes are enough.
abbrev pub and_behind : (ℕ → List (ℕ × ℕ)) → Option (ℕ × ℕ) → List (ℕ × ℕ)
and_behind rest none = []
and_behind rest (some (a, b)) = (a, b) ∷ rest b

unfoldable pub find_all_from : Regex → ℕ → Bytes → ℕ → List (ℕ × ℕ)
unfolding find_from
find_all_from r zero s n = []
find_all_from r (suc fuel) s n =
    let p = advance n (none, s) in and_behind (find_all_from r fuel s) (find_from r p.0 n p.1)

unfoldable pub find_all : Regex → Bytes → List (ℕ × ℕ)
unfolding find_all_from
find_all r s = find_all_from r (length s) s 0
