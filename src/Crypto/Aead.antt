-- ===== src/Crypto/Aead.antt =====
-- cipher.AEAD as internal/crypto uses it: the operations of AES-GCM, which the program does not
-- implement, and the laws that they are documented to have. `toy` is a cipher with these laws and no
-- secrecy: it shows that they can be met.
use phenk.Prelude.{
  ℕ, zero, suc, ◌+◌, ◌≤◌, ◌≡◌, ◌≢◌, inl, inr, refl, ap, Option, none, some, [], ◌∷◌, ◌++◌, arith,
  if◌then◌else◌, Bool-cases, length, take, drop, length-append, take-append, drop-append, Bytes,
  eq_bytes, eq_bytes_iff, eq_bytes_refl,
}

pub record Aead : Type 0 where
  -- of a key, a nonce, a text and additional data
  pub seal : Bytes → Bytes → Bytes → Bytes → Bytes
  pub open_sealed : Bytes → Bytes → Bytes → Bytes → Option Bytes
  pub overhead : ℕ
  pub nonce_size : ℕ

-- What is sealed is opened under the same key, nonce and additional data, is longer by the overhead,
-- and is not opened under additional data of the same length that differ.
pub record IsAead (a : Aead) : Type 0 where
  pub opens : (k n p d : Bytes) → a.open_sealed k n (a.seal k n p d) d ≡ some p
  pub grows : (k n p d : Bytes) → length (a.seal k n p d) ≡ length p + a.overhead
  pub authentic :
      (k n p d d' : Bytes)
      → length d ≡ length d'
      → length d ≤ 16
      → d ≢ d'
      → a.open_sealed k n (a.seal k n p d) d' ≡ none

-- Sixteen numbers that begin with the additional data.
abbrev toy_tag : Bytes → Bytes
toy_tag d = take 16 (d ++ 0 ∷ 0 ∷ 0 ∷ 0 ∷ 0 ∷ 0 ∷ 0 ∷ 0 ∷ 0 ∷ 0 ∷ 0 ∷ 0 ∷ 0 ∷ 0 ∷ 0 ∷ 0 ∷ [])

abbrev toy_seal : Bytes → Bytes → Bytes → Bytes → Bytes
toy_seal k n p d = toy_tag d ++ p

unfoldable pub toy_open : Bytes → Bytes → Bytes → Bytes → Option Bytes
toy_open k n c d = if eq_bytes (take 16 c) (toy_tag d) then some (drop 16 c) else none

abbrev pub toy : Aead
toy = record { seal = toy_seal; open_sealed = toy_open; overhead = 16; nonce_size = 12 }

length-take-append : (n : ℕ) (d z : Bytes) → n ≤ length z → length (take n (d ++ z)) ≡ n
length-take-append zero d z h = refl
length-take-append (suc n) [] [] h = absurd (omega arith)
length-take-append (suc n) [] (c ∷ z) h = ap suc (length-take-append n [] z (omega arith))
length-take-append (suc n) (c ∷ d) z h = ap suc (length-take-append n d z (omega arith))

length-toy_tag : (d : Bytes) → length (toy_tag d) ≡ 16
length-toy_tag d = length-take-append 16 d _ (omega arith)

-- Tags of short texts of one length tell them apart.
take-append-injective :
    (n : ℕ) (d d' z : Bytes)
    → length d ≡ length d'
    → length d ≤ n
    → take n (d ++ z) ≡ take n (d' ++ z)
    → d ≡ d'
take-append-injective n [] [] z e h p = refl
take-append-injective n [] (c ∷ d') z e h p = absurd (omega arith)
take-append-injective n (c ∷ d) [] z e h p = absurd (omega arith)
take-append-injective zero (c ∷ d) (c' ∷ d') z e h p = absurd (omega arith)
take-append-injective (suc n) (c ∷ d) (c' ∷ d') z e h p =
    ground (arith, take-append-injective n d d' z)

take-toy_tag : (d p : Bytes) → take 16 (toy_tag d ++ p) ≡ toy_tag d
take-toy_tag d p = take-append 16 (toy_tag d) p (length-toy_tag d)

drop-toy_tag : (d p : Bytes) → drop 16 (toy_tag d ++ p) ≡ p
drop-toy_tag d p = drop-append 16 (toy_tag d) p (length-toy_tag d)

toy-opens : (k n p d : Bytes) → toy_open k n (toy_seal k n p d) d ≡ some p
unfolding toy_open
toy-opens k n p d = rw (take-toy_tag d p) (rw (eq_bytes_refl (toy_tag d)) (rw (drop-toy_tag d p)))

toy-authentic :
    (k n p d d' : Bytes)
    → length d ≡ length d'
    → length d ≤ 16
    → d ≢ d'
    → toy_open k n (toy_seal k n p d) d' ≡ none
unfolding toy_open
toy-authentic k n p d d' e h ne =
    rw (take-toy_tag d p) (elim (Bool-cases (eq_bytes (toy_tag d) (toy_tag d'))) [
      | inl same ↦ absurd (
          ne (take-append-injective 16 d d' _ e h ((eq_bytes_iff (toy_tag d) (toy_tag d')).0 same)))
      | inr different ↦ rw different
    ])

pub toy-IsAead : IsAead toy
toy-IsAead = record {
  opens = toy-opens;
  grows = λ k n p d. omega (arith, length-append (toy_tag d) p, length-toy_tag d);
  authentic = toy-authentic;
}
