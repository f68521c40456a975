-- ===== src/Crypto/Stream.antt =====
-- internal/crypto/stream.go: a message is sealed in frames, each behind its length, and the last one
-- is marked. The writer takes all that it is given; a reader gives its bytes and then ends or fails.
-- Each round reads a frame, so one round more than there are bytes is enough.
pub mod Frames
pub mod RoundTrip
use phenk.Prelude.{
  ℕ, zero, suc, ◌+◌, ◌*◌, ◌/◌, ◌%◌, ◌^◌, Bool, true, false, not, ◌||◌, Option, none, some, [], ◌∷◌,
  ◌++◌, ltb, leb, ◌==◌, if◌then◌else◌, length, take, drop, Bytes,
}
use phenk.Prelude.Result.{Result, ok, err}
use phenk.Crypto.Aead.{Aead}
use phenk.Crypto.Keys.{
  CryptoError, DataKey, key_destroyed, bad_ciphertext, stream_format, read_failed,
}

abbrev pub stream_version : ℕ
stream_version = 1

abbrev pub stream_chunk_size : ℕ
stream_chunk_size = 64 * 1024

abbrev pub stream_prefix_len : ℕ
stream_prefix_len = 4

abbrev pub frame_continues : Bytes
frame_continues = 0 ∷ []

abbrev pub frame_final : Bytes
frame_final = 1 ∷ []

pub record Source : Type 0 where
  pub bytes : Bytes
  pub fails : Bool

-- What a stream function returns, beside what it has written.
pub record Outcome : Type 0 where
  pub written : Bytes
  pub total : ℕ
  pub error : Option CryptoError

abbrev pub stopped : ℕ → CryptoError → Outcome
stopped total e = record { written = []; total = total; error = some e }

abbrev pub prepend : Bytes → Outcome → Outcome
prepend s o = record o { written = s ++ o.written }

-- binary.BigEndian
unfoldable pub put_uint32 : ℕ → Bytes
put_uint32 n = n / 2 ^ 24 % 256 ∷ n / 2 ^ 16 % 256 ∷ n / 2 ^ 8 % 256 ∷ n % 256 ∷ []

unfoldable pub uint32 : Bytes → ℕ
uint32 (a ∷ b ∷ c ∷ d ∷ s) = ((a * 256 + b) * 256 + c) * 256 + d
uint32 _ = 0

unfoldable pub put_uint64 : ℕ → Bytes
unfolding put_uint32
put_uint64 n = put_uint32 (n / 2 ^ 32) ++ put_uint32 n

unfoldable pub stream_nonce : Bytes → ℕ → Bytes
unfolding put_uint64
stream_nonce prefix counter = prefix ++ put_uint64 counter

-- readChunk: the bytes, whether the source is exhausted, and what is left of it
unfoldable pub read_chunk : ℕ → Source → Result CryptoError (Bytes × Bool × Source)
read_chunk size src =
    if leb size (length src.bytes)
    then ok (take size src.bytes, false, record src { bytes = drop size src.bytes })
    else if src.fails
    then err read_failed
    else ok (src.bytes, true, record src { bytes = [] })

module _ (a : Aead) (chunk : ℕ) (key prefix : Bytes) where
  unfoldable pub sealed_frame : ℕ → Bytes → Bytes → Bytes
  sealed_frame counter trailer plain = a.seal key (stream_nonce prefix counter) plain trailer

  unfoldable pub frame : ℕ → Bytes → Bytes → Bytes
  unfolding sealed_frame
  frame counter trailer plain =
      put_uint32 (length (sealed_frame counter trailer plain)) ++ sealed_frame counter trailer plain

  -- The loop of `SealStream`
  unfoldable pub seal_frames : ℕ → Source → ℕ → ℕ → Outcome
  seal_frames zero src counter total = stopped total stream_format
  seal_frames (suc fuel) src counter total = elim (read_chunk chunk src) [
    | err e ↦ stopped total e
    | ok (pending, true, rest) ↦ record {
      written = frame counter frame_final pending;
      total = total + length pending;
      error = none;
    }
    | ok (pending, false, rest) ↦
        prepend (frame counter frame_continues pending)
          (seal_frames fuel rest (counter + 1) (total + length pending))
  ]

  abbrev last_frame : ℕ → Option Bytes → Outcome
  last_frame total none = stopped total bad_ciphertext
  last_frame total (some p) = record { written = p; total = total + length p; error = none }

  -- What `OpenStream` does with a frame: `next` reads the frames behind it.
  unfoldable pub read_frame : (Bytes → ℕ → ℕ → Outcome) → ℕ → ℕ → Bytes → Bytes → Outcome
  read_frame next counter total sealed rest =
      let nonce = stream_nonce prefix counter in
      elim (a.open_sealed key nonce sealed frame_continues) [
        | none ↦ last_frame total (a.open_sealed key nonce sealed frame_final)
        | some p ↦ prepend p (next rest (counter + 1) (total + length p))
      ]

  -- One round of the loop of `OpenStream`
  unfoldable pub open_round : (Bytes → ℕ → ℕ → Outcome) → Bytes → ℕ → ℕ → Outcome
  open_round next src counter total =
      let size = uint32 (take 4 src) in
      let body = drop 4 src in
      if ltb (length src) 4
      then stopped total stream_format
      else if ltb size a.overhead || ltb (chunk + a.overhead) size
      then stopped total stream_format
      else if ltb (length body) size
      then stopped total stream_format
      else read_frame next counter total (take size body) (drop size body)

  unfoldable pub open_frames : ℕ → Bytes → ℕ → ℕ → Outcome
  open_frames zero = λ src counter total. stopped total stream_format
  open_frames (suc fuel) = open_round (open_frames fuel)

module _ (a : Aead) where
  abbrev sealed_header : Bytes → Bytes
  sealed_header prefix = stream_version ∷ prefix

  -- SealStream, with the four random bytes of its prefix
  unfoldable pub seal_stream : DataKey → Bytes → Source → Outcome
  seal_stream d prefix src = elim d.raw [
    | none ↦ stopped 0 key_destroyed
    | some key ↦
        prepend (sealed_header prefix)
          (seal_frames a stream_chunk_size key prefix (suc (length src.bytes)) src 0 0)
  ]

  abbrev open_body : Bytes → Bytes → Outcome
  open_body key [] = stopped 0 stream_format
  open_body key (version ∷ body) =
      if ltb (length body) stream_prefix_len || not (version == stream_version)
      then stopped 0 stream_format
      else open_frames a stream_chunk_size key (take stream_prefix_len body) (suc (length body))
          (drop stream_prefix_len body) 0 0

  -- OpenStream
  unfoldable pub open_stream : DataKey → Bytes → Outcome
  open_stream d src = elim d.raw [ none ↦ stopped 0 key_destroyed | some key ↦ open_body key src ]
