-- ===== src/Examples/Crypto.antt =====
-- internal/crypto: the theorems at concrete inputs, with the cipher that has no secrecy.
use phenk.Prelude.{ℕ, zero, suc, ◌≡◌, ◌≢◌, refl, false, none, some, [], ◌∷◌, arith, length, Bytes}
use phenk.Prelude.Result.{ok, err}
use phenk.Crypto.Aead.{toy, toy-IsAead}
use phenk.Crypto.Keys.{
  new_data_key, wrap, unwrap, cannot_unwrap, seal_with, open_with, destroy, key_destroyed,
  unwrap-new_data_key, open_with-seal_with,
}
use phenk.Crypto.Stream.{Source, seal_stream, open_stream}
use phenk.Crypto.Stream.RoundTrip.{open_stream-seal_stream}

abbrev zeros : ℕ → Bytes
zeros zero = []
zeros (suc n) = 0 ∷ zeros n

abbrev one_id : Bytes
one_id = 1 ∷ zeros 15

unwrap-new_data_key_example :
    let wrapped = wrap toy [] (zeros 16) (zeros 12) (zeros 32) in
    (new_data_key toy [] (zeros 16) (zeros 12) (zeros 32)
      ≡ ok (record { raw = some (zeros 32) }, wrapped))
    × (unwrap toy [] (zeros 16) wrapped ≡ ok (record { raw = some (zeros 32) }))
    × (zeros 16 ≢ one_id → unwrap toy [] one_id wrapped ≡ err cannot_unwrap)
unwrap-new_data_key_example =
    unwrap-new_data_key toy toy-IsAead [] (zeros 16) one_id (zeros 12) (zeros 32) refl refl refl
      refl

open_with-seal_with_example :
    (c : Bytes) × (seal_with toy (record { raw = some (zeros 32) }) (zeros 12) (1 ∷ 2 ∷ []) ≡ ok c)
    × (open_with toy (record { raw = some (zeros 32) }) c ≡ ok (1 ∷ 2 ∷ []))
    × (open_with toy (destroy (record { raw = some (zeros 32) })) c ≡ err key_destroyed)
open_with-seal_with_example =
    open_with-seal_with toy toy-IsAead (zeros 32) (zeros 12) (1 ∷ 2 ∷ []) refl

abbrev a_source : Source
a_source = record { bytes = 5 ∷ 6 ∷ 7 ∷ []; fails = false }

open_stream-seal_stream_example :
    open_stream toy
      (record { raw = some (zeros 32) })
      (seal_stream toy (record { raw = some (zeros 32) }) (zeros 4) a_source).written
    ≡ record { written = 5 ∷ 6 ∷ 7 ∷ []; total = length a_source.bytes; error = none }
open_stream-seal_stream_example =
    open_stream-seal_stream toy (zeros 32) (zeros 4) a_source toy-IsAead (omega arith) refl refl
