-- ===== src/Crypto/Stream/RoundTrip.antt =====
-- internal/crypto/stream.go: what `SealStream` writes `OpenStream` reads back.
use phenk.Prelude.{
  ℕ, zero, suc, ◌+◌, ◌≤◌, ◌<◌, ◌≡◌, inl, inr, refl, sym, ap, ◌∙◌, true, false, none, some, [], ◌++◌,
  append-nil, append_assoc, arith, ltb, leb, leb→le, Bool-cases, length, take, drop, length-append,
  take-append, drop-append, length-take, length-take-le, length-drop, take-drop, Bytes,
}
use phenk.Prelude.Result.{ok}
use phenk.Crypto.Aead.{Aead, IsAead}
use phenk.Crypto.Stream.{
  Outcome, Source, prepend, frame_continues, frame_final, frame, stream_chunk_size,
  stream_prefix_len, open_frames, seal_frames, read_chunk, seal_stream, open_stream,
}
use phenk.Crypto.Stream.Frames.{Fits, open_round-continues, open_round-final, length-frame}

module _ (a : Aead) (laws : IsAead a) (chunk : ℕ) (fits : Fits a chunk) (room : 0 < chunk)
    (key prefix : Bytes) where
  abbrev sealing : ℕ → Source → ℕ → ℕ → Outcome
  sealing = seal_frames a chunk key prefix

  abbrev behind : Source → Source
  behind src = record src { bytes = drop chunk src.bytes }

  read_chunk-full :
      (src : Source)
      → chunk ≤ length src.bytes
      → read_chunk chunk src ≡ ok (take chunk src.bytes, false, behind src)
  unfolding read_chunk
  read_chunk-full src h = ground arith

  read_chunk-short :
      (src : Source)
      → src.fails ≡ false
      → length src.bytes < chunk
      → read_chunk chunk src ≡ ok (src.bytes, true, record src { bytes = [] })
  unfolding read_chunk
  read_chunk-short src sound h = ground arith

  -- One round of `SealStream`, on a source that has another full chunk.
  pub seal_frames-full :
      (fuel : ℕ) (src : Source) (counter total : ℕ)
      → chunk ≤ length src.bytes
      → sealing (suc fuel) src counter total
        ≡ prepend
            (frame a chunk key prefix counter frame_continues (take chunk src.bytes))
            (sealing fuel (behind src) (counter + 1) (total + chunk))
  unfolding seal_frames
  seal_frames-full fuel src counter total h =
      rw (read_chunk-full src h, seal_frames) (rw (length-take chunk src.bytes h))

  -- The last round, on a source that ends before the chunk is full.
  pub seal_frames-short :
      (fuel : ℕ) (src : Source) (counter total : ℕ)
      → src.fails ≡ false
      → length src.bytes < chunk
      → sealing (suc fuel) src counter total ≡ record {
        written = frame a chunk key prefix counter frame_final src.bytes;
        total = total + length src.bytes;
        error = none;
      }
  unfolding seal_frames
  seal_frames-short fuel src counter total sound h = rw (read_chunk-short src sound h, seal_frames)

  -- What is written is no shorter than what was read.
  length-seal_frames :
      (fuel : ℕ) (src : Source) (counter total : ℕ)
      → src.fails ≡ false
      → length src.bytes < fuel
      → length src.bytes ≤ length ((sealing fuel src counter total).written)
  length-seal_frames zero src counter total sound h = absurd (omega arith)
  length-seal_frames (suc fuel) src counter total sound h =
      elim (Bool-cases (leb chunk (length src.bytes))) [
        | inl full ↦
            let n : chunk ≤ length src.bytes = leb→le chunk (length src.bytes) full in
            let first = frame a chunk key prefix counter frame_continues (take chunk src.bytes) in
            let later = (sealing fuel (behind src) (counter + 1) (total + chunk)).written in
            rw (seal_frames-full fuel src counter total n) (
              omega (
                arith,
                length-append first later,
                length-drop chunk src.bytes,
                length-frame a laws chunk fits key prefix counter frame_continues
                    (take chunk src.bytes),
                length-take chunk src.bytes n,
                length-seal_frames fuel (behind src) (counter + 1) (total + chunk) sound
                    (omega (arith, length-drop chunk src.bytes)),
              ))
        | inr short ↦
            rw (seal_frames-short fuel src counter total sound (ground arith)) (
              omega
                (arith, length-frame a laws chunk fits key prefix counter frame_final src.bytes))
      ]

  -- What was sealed is read back, by at least as many rounds as it was sealed in.
  open_frames-seal_frames :
      (fuel rounds : ℕ) (src : Source) (counter total : ℕ) (rest : Bytes)
      → src.fails ≡ false
      → length src.bytes < fuel
      → fuel ≤ rounds
      → open_frames a chunk key prefix rounds
          ((sealing fuel src counter total).written ++ rest)
          counter
          total
        ≡ record { written = src.bytes; total = total + length src.bytes; error = none }
  unfolding open_frames
  open_frames-seal_frames zero rounds src counter total rest sound h le = absurd (omega arith)
  open_frames-seal_frames (suc fuel) zero src counter total rest sound h le = absurd (omega arith)
  open_frames-seal_frames (suc fuel) (suc rounds) src counter total rest sound h le =
      elim (Bool-cases (leb chunk (length src.bytes))) [
        | inl full ↦
            let n : chunk ≤ length src.bytes = leb→le chunk (length src.bytes) full in
            let first = take chunk src.bytes in
            let later = (sealing fuel (behind src) (counter + 1) (total + chunk)).written in
            let ih =
              open_frames-seal_frames fuel rounds (behind src) (counter + 1) (total + chunk) rest
                sound (omega (arith, length-drop chunk src.bytes)) (omega arith) in
            let counted : total + chunk + length (drop chunk src.bytes) ≡ total + length src.bytes =
              omega (arith, length-drop chunk src.bytes) in
            rw (seal_frames-full fuel src counter total n) (
              rw (append_assoc (frame a chunk key prefix counter frame_continues first) later rest)
                (rw
                  (open_round-continues a laws chunk fits key prefix
                    (open_frames a chunk key prefix rounds) first (later ++ rest) counter total
                    (length-take-le chunk src.bytes))
                  (rw (length-take chunk src.bytes n)
                    (rw ih (rw (take-drop chunk src.bytes) (rw counted refl))))))
        | inr short ↦ rw (seal_frames-short fuel src counter total sound (ground arith)) (
            open_round-final a laws chunk fits key prefix (open_frames a chunk key prefix rounds)
              src.bytes rest counter total (ground arith))
      ]

-- What `SealStream` writes from a reader that does not fail `OpenStream` reads back whole, under the
-- same key and without an error, for every cipher with the laws of an AEAD whose overhead fits a
-- frame's length field, and every prefix of four random bytes.
pub open_stream-seal_stream :
    (a : Aead) (key prefix : Bytes) (src : Source)
    → IsAead a
    → Fits a stream_chunk_size
    → length prefix ≡ stream_prefix_len
    → src.fails ≡ false
    → open_stream a
        (record { raw = some key })
        (seal_stream a (record { raw = some key }) prefix src).written
      ≡ record { written = src.bytes; total = length src.bytes; error = none }
unfolding open_stream seal_stream
open_stream-seal_stream a key prefix src laws fits four sound =
    let sealed =
      (seal_frames a stream_chunk_size key prefix (suc (length src.bytes)) src 0 0).written in
    let long =
      length-seal_frames a laws stream_chunk_size fits (omega arith) key prefix
        (suc (length src.bytes)) src 0 0 sound (omega arith) in
    let whole =
      open_frames-seal_frames a laws stream_chunk_size fits (omega arith) key prefix
        (suc (length src.bytes)) (suc (length (prefix ++ sealed))) src 0 0 [] sound (omega arith)
        (omega (arith, long, length-append prefix sealed)) in
    let counted : 0 + length src.bytes ≡ length src.bytes = omega arith in
    let enough : ltb (length (prefix ++ sealed)) stream_prefix_len ≡ false =
      ground (arith, length-append prefix sealed) in
    rw (take-append stream_prefix_len prefix sealed four) (
      rw (drop-append stream_prefix_len prefix sealed four) (
        rw enough (
          ap
            (λ s.
              open_frames a stream_chunk_size key prefix (suc (length (prefix ++ sealed))) s 0 0)
            (sym (append-nil sealed))
          ∙ (whole ∙ rw counted refl))))
