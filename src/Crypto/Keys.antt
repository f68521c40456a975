-- ===== src/Crypto/Keys.antt =====
-- internal/crypto/crypto.go: the keyring, which wraps a data key for each identity, and data keys.
-- Random bytes are arguments. Deriving subkeys and reading the master key from base64 are left out.
use phenk.Prelude.{
  ℕ, ◌+◌, ◌≡◌, ◌≢◌, refl, not, ◌||◌, Option, none, some, [], ◌∷◌, ◌++◌, arith, ltb, ◌==◌,
  if◌then◌else◌, length, take, drop, length-append, take-append, drop-append, Bytes,
}
use phenk.Prelude.Result.{Result, ok, err}
use phenk.Crypto.Aead.{Aead, IsAead}

abbrev pub key_size : ℕ
key_size = 32

abbrev wrap_version : ℕ
wrap_version = 1

pub data CryptoError : Type 0 where
  bad_key_size key_destroyed wrap_format bad_ciphertext cannot_unwrap stream_format read_failed :
      CryptoError

-- A data key is destroyed when its bytes are gone.
pub record DataKey : Type 0 where
  pub raw : Option Bytes

unfoldable pub new_data_key_from : Bytes → Result CryptoError DataKey
new_data_key_from raw =
    if length raw == key_size then ok (record { raw = some raw }) else err bad_key_size

unfoldable pub destroy : DataKey → DataKey
destroy d = record { raw = none }

module _ (a : Aead) where
  -- Keyring.wrap, under the master key
  unfoldable pub wrap : Bytes → Bytes → Bytes → Bytes → Bytes
  wrap master id nonce raw = wrap_version ∷ (nonce ++ a.seal master nonce raw id)

  -- Keyring.NewDataKey: the wrapped form of a key of 32 random bytes
  unfoldable pub new_data_key : Bytes → Bytes → Bytes → Bytes → Result CryptoError (DataKey × Bytes)
  unfolding wrap new_data_key_from
  new_data_key master id nonce raw = elim (new_data_key_from raw) [
    | err e ↦ err e
    | ok k ↦ ok (k, wrap master id nonce raw)
  ]

  abbrev unwrapped : Option Bytes → Result CryptoError DataKey
  unwrapped none = err cannot_unwrap
  unwrapped (some raw) = new_data_key_from raw

  -- Keyring.Unwrap
  unfoldable pub unwrap : Bytes → Bytes → Bytes → Result CryptoError DataKey
  unfolding new_data_key_from
  unwrap master id [] = err wrap_format
  unwrap master id (version ∷ body) =
      if ltb (length (version ∷ body)) (1 + a.nonce_size + key_size)
        || not (version == wrap_version)
      then err wrap_format
      else unwrapped (a.open_sealed master (take a.nonce_size body) (drop a.nonce_size body) id)

  -- DataKey.Seal
  unfoldable pub seal_with : DataKey → Bytes → Bytes → Result CryptoError Bytes
  seal_with d nonce plain = elim d.raw [
    | none ↦ err key_destroyed
    | some k ↦ ok (nonce ++ a.seal k nonce plain [])
  ]

  abbrev opened : Option Bytes → Result CryptoError Bytes
  opened none = err bad_ciphertext
  opened (some p) = ok p

  -- DataKey.Open
  unfoldable pub open_with : DataKey → Bytes → Result CryptoError Bytes
  open_with d c = elim d.raw [
    | none ↦ err key_destroyed
    | some k ↦
        if ltb (length c) (a.nonce_size + a.overhead)
        then err bad_ciphertext
        else opened (a.open_sealed k (take a.nonce_size c) (drop a.nonce_size c) [])
  ]

module _ (a : Aead) (laws : IsAead a) where
  -- A wrapped key is long enough, and its parts are found again: the rest is the cipher's.
  unwrap-wrap :
      (master id other nonce raw : Bytes)
      → length nonce ≡ a.nonce_size
      → length raw ≡ key_size
      → unwrap a master other (wrap a master id nonce raw)
        ≡ unwrapped a (a.open_sealed master nonce (a.seal master nonce raw id) other)
  unfolding unwrap wrap
  unwrap-wrap master id other nonce raw hn hr =
      rw (take-append a.nonce_size nonce (a.seal master nonce raw id) hn) (
        rw (drop-append a.nonce_size nonce (a.seal master nonce raw id) hn) (
          ground (
            arith,
            length-append nonce (a.seal master nonce raw id),
            laws.grows master nonce raw id,
          )))

  unwrapped-ok :
      (raw : Bytes)
      → length raw ≡ key_size
      → unwrapped a (some raw) ≡ ok (record { raw = some raw })
  unfolding new_data_key_from
  unwrapped-ok raw h = ground arith

  -- A data key wrapped for an identity is unwrapped for that identity, and for no other: a wrapped
  -- key lifted into another row opens nothing.
  pub unwrap-new_data_key :
      (master id other nonce raw : Bytes)
      → length id ≡ 16
      → length other ≡ 16
      → length nonce ≡ a.nonce_size
      → length raw ≡ key_size
      → let wrapped = wrap a master id nonce raw in
        (new_data_key a master id nonce raw ≡ ok (record { raw = some raw }, wrapped))
        × (unwrap a master id wrapped ≡ ok (record { raw = some raw }))
        × (id ≢ other → unwrap a master other wrapped ≡ err cannot_unwrap)
  unfolding new_data_key
  unwrap-new_data_key master id other nonce raw hi ho hn hr = (
    ground arith,
    rw (unwrap-wrap master id id nonce raw hn hr)
        (rw (laws.opens master nonce raw id) (unwrapped-ok raw hr)),
    λ ne.
        rw (unwrap-wrap master id other nonce raw hn hr)
          (rw (laws.authentic master nonce raw id other (omega arith) (omega arith) ne)),
  )

  -- What a data key seals it opens again, until it is destroyed: then it opens nothing.
  pub open_with-seal_with :
      (raw nonce plain : Bytes)
      → length nonce ≡ a.nonce_size
      → (c : Bytes) × (seal_with a (record { raw = some raw }) nonce plain ≡ ok c)
        × (open_with a (record { raw = some raw }) c ≡ ok plain)
        × (open_with a (destroy (record { raw = some raw })) c ≡ err key_destroyed)
  unfolding seal_with open_with destroy
  open_with-seal_with raw nonce plain hn =
      let sealed = a.seal raw nonce plain [] in
      (
        nonce ++ sealed,
        refl,
        rw (take-append a.nonce_size nonce sealed hn) (
            rw (drop-append a.nonce_size nonce sealed hn) (
              rw (laws.opens raw nonce plain [])
                (ground (arith, length-append nonce sealed, laws.grows raw nonce plain [])))),
        refl,
      )
