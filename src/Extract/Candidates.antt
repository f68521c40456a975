-- ===== src/Extract/Candidates.antt =====
-- internal/extract/extract.go: the expressions, `acceptCandidate` and `partOfSomethingLonger`.
use phenk.Prelude.{
  ℕ, ◌+◌, ◌-◌, Bool, false, not, ◌&&◌, ◌||◌, Option, none, some, List, [], ◌∷◌, ltb, leb, ◌==◌,
  if◌then◌else◌, length, is_empty, get_elem?, take, drop, keep, any, every, Bytes, codes,
}
use phenk.Regexp.{
  Regex, byte_of, word_boundary, at_end, many, ◌&◌, ◌or◌, word, bytes, choice, maybe, between,
  one_of, is_digit, is_upper_or_digit, is_word, is_blank, kelvin_sign, long_s,
}
use phenk.Strings.{trim_right_bytes, has_suffix}
use phenk.Extract.{is_letter, byte_or_zero}

-- `c[oó]digo` under `(?i)`
abbrev pub codigo : Regex
codigo = word "c" & (word "o" or (bytes (195 ∷ 179 ∷ []) or bytes (195 ∷ 147 ∷ []))) & word "digo"

-- `\w` under `(?i)`, and `[- ]?` before a word
abbrev pub word_char : Regex
word_char = byte_of is_word or (kelvin_sign or long_s)

abbrev pub dash_or_space : Regex
dash_or_space = one_of (codes "- ")

abbrev pub keyword : Regex
keyword = choice (word "code") (
    word "codes"
    ∷ codigo
    ∷ word "verify"
    ∷ word "verification"
    ∷ (word "verifica" & many word_char)
    ∷ word "otp"
    ∷ (word "one" & dash_or_space & word "time")
    ∷ word "pin"
    ∷ word "passcode"
    ∷ word "password"
    ∷ (word "confirm" & many word_char)
    ∷ (word "authenticat" & many word_char)
    ∷ word "security"
    ∷ word "token"
    ∷ (word "log" & maybe dash_or_space & word "in")
    ∷ (word "sign" & maybe dash_or_space & word "in")
    ∷ word "2fa"
    ∷ word "mfa"
    ∷ (word "two" & dash_or_space & word "factor")
    ∷ [])

abbrev pub keywords : Regex
keywords = word_boundary & keyword & word_boundary

abbrev pub blanks : Regex
blanks = many (byte_of is_blank)

abbrev pub strong_lead : Regex
strong_lead =
    choice (word "code") (codigo ∷ word "pin" ∷ word "otp" ∷ word "passcode" ∷ [])
    & blanks
    & maybe (word "is" or one_of (codes ":-"))
    & blanks
    & at_end

abbrev pub candidate : Regex
candidate =
    word_boundary
    & choice (between 3 4 (byte_of is_digit) & dash_or_space & between 3 4 (byte_of is_digit))
        (between 4 8 (byte_of is_digit) ∷ between 4 8 (byte_of is_upper_or_digit) ∷ [])
    & word_boundary

-- `^(19|20)\d{2}$`, `^\d+$` and `\d`
unfoldable pub is_year : Bytes → Bool
is_year (a ∷ b ∷ c ∷ d ∷ []) =
    ((a == b'1' && b == b'9') || (a == b'2' && b == b'0')) && (is_digit c && is_digit d)
is_year _ = false

unfoldable pub is_digits : Bytes → Bool
is_digits s = not (is_empty s) && every is_digit s

unfoldable pub has_digit : Bytes → Bool
has_digit s = any is_digit s

-- `before(n)` and `after(n)`: a byte of the line, 0 outside of it.
unfoldable pub byte_before : Bytes → ℕ → ℕ → ℕ
byte_before line start n = if ltb start n then 0 else byte_or_zero (get_elem? line (start - n))

unfoldable pub byte_after : Bytes → ℕ → ℕ → ℕ
byte_after line last n =
    if leb (length line) (last + n - 1) then 0 else byte_or_zero (get_elem? line (last + n - 1))

abbrev pub is_among : Bytes → ℕ → Bool
is_among s c = any (λ (d : ℕ). d == c) s

-- `€`, `£`, `¥`, `₹`, `₩`, `USD`, `EUR` and `GBP`
abbrev pub currencies : List Bytes
currencies =
    (226 ∷ 130 ∷ 172 ∷ [])
    ∷ (194 ∷ 163 ∷ [])
    ∷ (194 ∷ 165 ∷ [])
    ∷ (226 ∷ 130 ∷ 185 ∷ [])
    ∷ (226 ∷ 130 ∷ 169 ∷ [])
    ∷ codes "USD"
    ∷ codes "EUR"
    ∷ codes "GBP"
    ∷ []

abbrev pub is_space_only : ℕ → Bool
is_space_only c = c == 32

unfoldable pub ends_with_currency : Bytes → Bool
ends_with_currency lead =
    any (λ (symbol : Bytes). has_suffix (trim_right_bytes is_space_only lead) symbol) currencies

unfoldable pub part_of_something_longer : Bytes → ℕ → ℕ → Bool
unfolding byte_before byte_after ends_with_currency
part_of_something_longer line start last =
    let before = byte_before line start in
    let after = byte_after line last in
    is_among (codes "/=?&#@$+_:.,") (before 1)
    || (ends_with_currency (take start line)
        || ((is_among (codes "- ") (before 1) && is_digit (before 2))
            || ((is_among (codes "- .,:/") (after 1) && is_digit (after 2))
                || ((after 1 == b'@' || (after 1 == b'.' && is_letter (after 2)))
                    || (after 1 == b'%' || is_letter (after 1))))))

-- strings.NewReplacer(" ", "", "-", "")
unfoldable pub without_grouping : Bytes → Bytes
without_grouping = keep (λ (c : ℕ). not (c == 32 || c == b'-'))

abbrev pub slice : Bytes → ℕ → ℕ → Bytes
slice s a b = drop a (take b s)

-- The conditions of `acceptCandidate`, in its order; the last is that of the place in the line.
unfoldable pub accepted : Bytes → Bool → Option Bytes
unfolding is_year has_digit
accepted value longer =
    if ltb (length value) 4 || ltb 8 (length value)
    then none
    else if is_year value
    then none
    else if not (has_digit value)
    then none
    else if longer
    then none
    else some value

unfoldable pub accept_candidate : Bytes → ℕ → ℕ → Option Bytes
unfolding accepted part_of_something_longer without_grouping
accept_candidate line start last =
    accepted (without_grouping (slice line start last)) (part_of_something_longer line start last)
