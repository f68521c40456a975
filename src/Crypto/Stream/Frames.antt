-- ===== src/Crypto/Stream/Frames.antt =====
-- internal/crypto/stream.go: what `OpenStream` makes of one frame of `SealStream`.
use phenk.Prelude.{
  ℕ, ◌+◌, ◌^◌, ◌≤◌, ◌<◌, ◌≡◌, ◌≢◌, refl, ◌∙◌, none, [], ◌++◌, append_assoc, arith, length, take,
  drop, length-append, take-append, drop-append, Bytes,
}
use phenk.Crypto.Aead.{Aead, IsAead}
use phenk.Crypto.Stream.{
  Outcome, prepend, put_uint32, uint32, stream_nonce, frame_continues, frame_final, sealed_frame,
  frame, read_frame, open_round,
}

-- The cipher's overhead leaves room for the length of a frame in four bytes.
abbrev pub Fits : Aead → ℕ → Type 0
Fits a chunk = chunk + a.overhead < 2 ^ 32

uint32-put_uint32 : (n : ℕ) (s : Bytes) → n < 2 ^ 32 → uint32 (put_uint32 n ++ s) ≡ n
unfolding uint32 put_uint32
uint32-put_uint32 n s h = omega arith

pub length-put_uint32 : (n : ℕ) → length (put_uint32 n) ≡ 4
unfolding put_uint32
length-put_uint32 n = refl

take-put_uint32 : (n : ℕ) (s : Bytes) → take 4 (put_uint32 n ++ s) ≡ put_uint32 n ++ []
unfolding put_uint32
take-put_uint32 n s = refl

drop-put_uint32 : (n : ℕ) (s : Bytes) → drop 4 (put_uint32 n ++ s) ≡ s
unfolding put_uint32
drop-put_uint32 n s = refl

final_ne_continues : frame_final ≢ frame_continues
final_ne_continues e = ground arith

module _ (a : Aead) (laws : IsAead a) (chunk : ℕ) (fits : Fits a chunk) (key prefix : Bytes) where
  abbrev Next : Type 0
  Next = Bytes → ℕ → ℕ → Outcome

  open_round-frame :
      (next : Next) (trailer plain rest : Bytes) (counter total : ℕ)
      → length plain ≤ chunk
      → open_round a chunk key prefix next
          (frame a chunk key prefix counter trailer plain ++ rest)
          counter
          total
        ≡ read_frame a chunk key prefix next counter total
            (sealed_frame a chunk key prefix counter trailer plain)
            rest
  unfolding open_round frame sealed_frame
  open_round-frame next trailer plain rest counter total h =
      let sealed = a.seal key (stream_nonce prefix counter) plain trailer in
      let n = length sealed in
      let grows = laws.grows key (stream_nonce prefix counter) plain trailer in
      rw (append_assoc (put_uint32 n) sealed rest) (
        rw (take-put_uint32 n (sealed ++ rest)) (
          rw (drop-put_uint32 n (sealed ++ rest)) (
            rw (uint32-put_uint32 n [] (omega arith)) (
              rw (take-append n sealed rest refl) (
                rw (drop-append n sealed rest refl) (
                  ground (
                    arith,
                    length-append (put_uint32 n) (sealed ++ rest),
                    length-put_uint32 n,
                    length-append sealed rest,
                  )))))))

  read_frame-continues :
      (next : Next) (plain rest : Bytes) (counter total : ℕ)
      → read_frame a chunk key prefix next counter total
          (sealed_frame a chunk key prefix counter frame_continues plain)
          rest
        ≡ prepend plain (next rest (counter + 1) (total + length plain))
  unfolding read_frame sealed_frame
  read_frame-continues next plain rest counter total =
      rw (laws.opens key (stream_nonce prefix counter) plain frame_continues, read_frame)

  read_frame-final :
      (next : Next) (plain rest : Bytes) (counter total : ℕ)
      → read_frame a chunk key prefix next counter total
          (sealed_frame a chunk key prefix counter frame_final plain)
          rest
        ≡ record { written = plain; total = total + length plain; error = none }
  unfolding read_frame sealed_frame
  read_frame-final next plain rest counter total =
      rw
        (
          laws.authentic key (stream_nonce prefix counter) plain frame_final frame_continues refl
              (omega arith) final_ne_continues,
          read_frame,
        )
        (rw (laws.opens key (stream_nonce prefix counter) plain frame_final))

  -- A frame that is not the last gives its text, and the reading goes on behind it.
  pub open_round-continues :
      (next : Next) (plain rest : Bytes) (counter total : ℕ)
      → length plain ≤ chunk
      → open_round a chunk key prefix next
          (frame a chunk key prefix counter frame_continues plain ++ rest)
          counter
          total
        ≡ prepend plain (next rest (counter + 1) (total + length plain))
  open_round-continues next plain rest counter total h =
      open_round-frame next frame_continues plain rest counter total h
      ∙ read_frame-continues next plain rest counter total

  -- The last frame gives its text, and nothing behind it is read.
  pub open_round-final :
      (next : Next) (plain rest : Bytes) (counter total : ℕ)
      → length plain ≤ chunk
      → open_round a chunk key prefix next
          (frame a chunk key prefix counter frame_final plain ++ rest)
          counter
          total
        ≡ record { written = plain; total = total + length plain; error = none }
  open_round-final next plain rest counter total h =
      open_round-frame next frame_final plain rest counter total h
      ∙ read_frame-final next plain rest counter total

  pub length-frame :
      (counter : ℕ) (trailer plain : Bytes)
      → length (frame a chunk key prefix counter trailer plain) ≡ 4 + length plain + a.overhead
  unfolding frame sealed_frame
  length-frame counter trailer plain =
      let sealed = a.seal key (stream_nonce prefix counter) plain trailer in
      omega (
        arith,
        length-append (put_uint32 (length sealed)) sealed,
        length-put_uint32 (length sealed),
        laws.grows key (stream_nonce prefix counter) plain trailer,
      )
