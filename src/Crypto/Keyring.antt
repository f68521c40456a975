-- ===== src/Crypto/Keyring.antt =====
-- internal/crypto as its clients use it: a keyring holds a cipher and the master key, and an
-- identifier is bound as its sixteen bytes.
use phenk.Prelude.{ℕ, zero, suc, ◌/◌, ◌%◌, [], ◌∷◌, ◌++◌, Bytes}
use phenk.Prelude.Result.{Result, ok, err}
use phenk.Crypto.Aead.{Aead}
use phenk.Crypto.Keys.{CryptoError, new_data_key, unwrap, seal_with}

pub record Keyring : Type 0 where
  pub cipher : Aead
  pub master : Bytes

-- The random bytes that making and wrapping a key take.
pub record KeyDraw : Type 0 where
  pub nonce : Bytes
  pub raw : Bytes

-- The last n bytes of a number, the most significant first.
unfoldable pub big_endian : ℕ → ℕ → Bytes
big_endian zero id = []
big_endian (suc n) id = big_endian n (id / 256) ++ id % 256 ∷ []

unfoldable pub uuid_bytes : ℕ → Bytes
unfolding big_endian
uuid_bytes id = big_endian 16 id

-- Keyring.NewDataKey: the wrapped key
unfoldable pub new_wrapped_key : Keyring → KeyDraw → ℕ → Result CryptoError Bytes
unfolding new_data_key
new_wrapped_key r draw id =
    elim (new_data_key r.cipher r.master (uuid_bytes id) draw.nonce draw.raw) [
      | err e ↦ err e
      | ok (k, wrapped) ↦ ok wrapped
    ]

-- Keyring.Unwrap, and DataKey.Seal under the key that it gives
unfoldable pub seal_for : Keyring → ℕ → Bytes → Bytes → Bytes → Result CryptoError Bytes
unfolding unwrap seal_with
seal_for r id wrapped nonce plain = elim (unwrap r.cipher r.master (uuid_bytes id) wrapped) [
  | err e ↦ err e
  | ok k ↦ seal_with r.cipher k nonce plain
]
