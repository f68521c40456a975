-- ===== src/Alloc/Generated.antt =====
-- internal/alloc/alloc.go: `GenerateLocalPart` against internal/core/address.go.
use phenk.Prelude.{
  ℕ, zero, suc, ◌%◌, ◌<◌, ◌≡◌, inl, refl, ap, ◌∙◌, Bool, true, [], ◌∷◌, arith, ◌==◌, ==_refl,
  length, get_elem?, any, every, All, All-imp, Bytes,
}
use phenk.Prelude.Result.{err}
use phenk.Core.Address.{
  random_alphabet, random_local_part_len, in_alphabet, is_name_start, validate_named_local_part,
  local_part_reserved,
}
use phenk.Core.Address.Named.{IsAlnum, IsNameByte, IsName, validate_named_exact}
use phenk.Alloc.{generate_local_part, alphabet_letter, letter_at}

-- An element of a list within its length.
letter-member :
    (s : Bytes) (i : ℕ) → i < length s → any (λ d. d == letter_at (get_elem? s i)) s ≡ true
letter-member [] i h = absurd (omega arith)
letter-member (c ∷ s) zero h = ground (arith, ==_refl c)
letter-member (c ∷ s) (suc i) h = ground (arith, letter-member s i (omega arith))

alphabet_letter-member : (b : ℕ) → in_alphabet (alphabet_letter b) ≡ true
alphabet_letter-member b = letter-member random_alphabet (b % 32) (omega arith)

letters_alnum : every is_name_start random_alphabet ≡ true
letters_alnum = refl

letter-every :
    (p : ℕ → Bool) (s : Bytes) (c : ℕ) → every p s ≡ true → any (λ d. d == c) s ≡ true → p c ≡ true
letter-every p [] c h m = cc
letter-every p (d ∷ s) c h m = ground (arith, letter-every p s c)

in_alphabet-IsAlnum : (c : ℕ) → in_alphabet c ≡ true → IsAlnum c
in_alphabet-IsAlnum c h =
    let n = letter-every is_name_start random_alphabet c letters_alnum h in ground (arith, n)

generate_local_part-letters : (s : Bytes) → All (λ c. in_alphabet c ≡ true) (generate_local_part s)
unfolding generate_local_part
generate_local_part-letters [] = tt
generate_local_part-letters (b ∷ s) = (alphabet_letter-member b, generate_local_part-letters s)

length-generate_local_part : (s : Bytes) → length (generate_local_part s) ≡ length s
unfolding generate_local_part
length-generate_local_part [] = refl
length-generate_local_part (b ∷ s) = ap suc (length-generate_local_part s)

letters-IsName :
    (s : Bytes) → length s ≡ random_local_part_len → All (λ c. in_alphabet c ≡ true) s → IsName s
letters-IsName [] h a = absurd (omega arith)
letters-IsName (c ∷ s) h a = (
  in_alphabet-IsAlnum c a.0,
  All-imp (λ c. in_alphabet c ≡ true) IsNameByte (λ c m. inl (in_alphabet-IsAlnum c m)) s a.1,
  omega arith,
  omega arith,
)

-- A local part generated from ten random bytes is one that `ValidateNamedLocalPart` refuses as
-- reserved: no named inbox can take an address of the random kind.
pub generate_local_part_reserved :
    (random_bytes : Bytes)
    → length random_bytes ≡ random_local_part_len
    → validate_named_local_part (generate_local_part random_bytes) ≡ err local_part_reserved
generate_local_part_reserved random_bytes h =
    let s = generate_local_part random_bytes in
    let n = length-generate_local_part random_bytes ∙ h in
    let letters = generate_local_part-letters random_bytes in
    (validate_named_exact s).1.1 (letters-IsName s n letters, (n, letters))
