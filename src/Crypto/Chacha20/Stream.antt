-- ===== src/Crypto/Chacha20/Stream.antt =====
-- The cipher as a stream: each byte is combined with the byte of the key stream at its place.
use nova_net.Prelude.{
  ℕ, zero, suc, ◌+◌, ◌/◌, ◌%◌, ◌^◌, ◌<◌, ◌≤◌, ◌≡◌, refl, sym, ap, ap₂, ◌∙◌, List, [], ◌∷◌, ◌++◌,
  length, take, drop, drop_all, take-append-drop, length-take, length-drop, get_or, bit_xor, some,
  u32, arith,
}
use native.Mathlib.Decide.{dec_lt}
use nova_net.Prelude.Xor.{bit_xor-lt, bit_xor_cancel}
use nova_net.Wire.{Endian, IsBytes}
use nova_net.Crypto.Chacha20.{xor_bytes, block_of, crypt_loop, chacha20_crypt, chacha20_setup}
use nova_net.Crypto.Chacha20.Block.{block-IsBytes}

drop-get_or : (i : ℕ) (xs : List ℕ) → i < length xs → drop i xs ≡ get_or xs i 0 ∷ drop (i + 1) xs
drop-get_or i [] h = absurd (omega arith)
drop-get_or zero (x ∷ xs) h = refl
drop-get_or (suc i) (x ∷ xs) h =
    drop-get_or i xs (omega arith) ∙ ap (λ (k : ℕ). get_or xs i 0 ∷ drop k (x ∷ xs)) (next i)
  where
    next : (i : ℕ) → suc (i + 1) ≡ suc i + 1
    next i = omega arith

module _ (host : Endian) (key nonce : List ℕ) where
  -- Byte `i` of the key stream that begins with block `counter`; the block counter is of 32 bits.
  pub stream_byte : ℕ → ℕ → ℕ
  stream_byte counter i = get_or (block_of host key nonce (u32 (counter + i / 64))) (i % 64) 0

  -- The bytes combined with the key stream from place `i` on.
  pub xor_stream : ℕ → ℕ → List ℕ → List ℕ
  xor_stream counter i [] = []
  xor_stream counter i (b ∷ bs) = bit_xor b (stream_byte counter i) ∷ xor_stream counter (i + 1) bs

  pub length-xor_stream :
      (counter i : ℕ) (bs : List ℕ) → length (xor_stream counter i bs) ≡ length bs
  unfolding xor_stream
  length-xor_stream counter i [] = refl
  length-xor_stream counter i (b ∷ bs) = ap suc (length-xor_stream counter (i + 1) bs)

  get_or-lt : (xs : List ℕ) (i : ℕ) → IsBytes xs → get_or xs i 0 < 2 ^ 8
  get_or-lt [] i h = omega arith
  get_or-lt (x ∷ xs) zero h = h.0
  get_or-lt (x ∷ xs) (suc i) h = get_or-lt xs i h.1

  stream_byte-lt : (counter i : ℕ) → stream_byte counter i < 2 ^ 8
  unfolding stream_byte
  stream_byte-lt counter i =
      get_or-lt (block_of host key nonce (u32 (counter + i / 64))) (i % 64)
        (block-IsBytes host (chacha20_setup host key (u32 (counter + i / 64)) nonce)).0

  pub IsBytes-xor_stream :
      (counter i : ℕ) (bs : List ℕ) → IsBytes bs → IsBytes (xor_stream counter i bs)
  unfolding xor_stream
  IsBytes-xor_stream counter i [] h = tt
  IsBytes-xor_stream counter i (b ∷ bs) h = (
    bit_xor-lt 8 b (stream_byte counter i) h.0 (stream_byte-lt counter i),
    IsBytes-xor_stream counter (i + 1) bs h.1,
  )

  -- Twice is once back.
  pub xor_stream_twice :
      (counter i : ℕ) (bs : List ℕ)
      → IsBytes bs
      → xor_stream counter i (xor_stream counter i bs) ≡ bs
  unfolding xor_stream
  xor_stream_twice counter i [] h = refl
  xor_stream_twice counter i (b ∷ bs) h =
      ap₂ (λ x xs. x ∷ xs)
        (bit_xor_cancel 8 b (stream_byte counter i) h.0 (stream_byte-lt counter i))
        (xor_stream_twice counter (i + 1) bs h.1)

  -- A block further on is the stream of the next counter.
  xor_stream-shift :
      (counter i : ℕ) (bs : List ℕ)
      → xor_stream counter (64 + i) bs ≡ xor_stream (u32 (counter + 1)) i bs
  unfolding xor_stream stream_byte
  xor_stream-shift counter i [] = refl
  xor_stream-shift counter i (b ∷ bs) =
      let place : (64 + i) % 64 ≡ i % 64 = omega arith in
      let block : u32 (counter + (64 + i) / 64) ≡ u32 (u32 (counter + 1) + i / 64) = omega arith in
      ap₂ (λ x xs. x ∷ xs)
        (ap₂ (λ (c k : ℕ). bit_xor b (get_or (block_of host key nonce c) k 0)) block place)
        (ap (λ (k : ℕ). xor_stream counter k bs) (omega arith)
          ∙ xor_stream-shift counter (i + 1) bs)

  xor_stream-append :
      (counter i : ℕ) (xs ys : List ℕ)
      → xor_stream counter i (xs ++ ys)
        ≡ xor_stream counter i xs ++ xor_stream counter (length xs + i) ys
  unfolding xor_stream
  xor_stream-append counter i [] ys = ap (λ (k : ℕ). xor_stream counter k ys) (omega arith)
  xor_stream-append counter i (x ∷ xs) ys =
      ap (λ r. bit_xor x (stream_byte counter i) ∷ r)
        (xor_stream-append counter (i + 1) xs ys
          ∙ ap (λ (k : ℕ). xor_stream counter (i + 1) xs ++ xor_stream counter k ys) (omega arith))

  -- Within a block.
  xor_bytes-stream :
      (counter i : ℕ) (bs : List ℕ)
      → counter < 2 ^ 32
      → i + length bs ≤ 64
      → xor_bytes bs (drop i (block_of host key nonce counter)) ≡ xor_stream counter i bs
  unfolding xor_bytes xor_stream stream_byte
  xor_bytes-stream counter i [] p h = refl
  xor_bytes-stream counter i (b ∷ bs) p h =
      let block = block_of host key nonce counter in
      let len = (block-IsBytes host (chacha20_setup host key counter nonce)).1 in
      let same : u32 (counter + i / 64) ≡ counter = omega arith in
      let place : i % 64 ≡ i = omega arith in
      ap (xor_bytes (b ∷ bs)) (drop-get_or i block (omega (arith, len)))
      ∙ ap₂ (λ x xs. x ∷ xs)
          (sym (ap₂ (λ (c k : ℕ). bit_xor b (get_or (block_of host key nonce c) k 0)) same place))
          (xor_bytes-stream counter (i + 1) bs p (omega arith))

  round-stream :
      (counter : ℕ) (bs : List ℕ)
      → counter < 2 ^ 32
      → xor_bytes (take 64 bs) (block_of host key nonce counter)
          ++ xor_stream (u32 (counter + 1)) 0 (drop 64 bs)
        ≡ xor_stream counter 0 bs
  unfolding xor_stream
  round-stream counter bs p =
      ap₂ (λ xs ys. xs ++ ys)
        (xor_bytes-stream counter 0 (take 64 bs) p (omega (arith, length-take 64 bs)))
        (next (dec_lt (length bs) 64))
      ∙ sym (xor_stream-append counter 0 (take 64 bs) (drop 64 bs))
      ∙ ap (xor_stream counter 0) (take-append-drop 64 bs)
    where
      next :
          Dec (length bs < 64)
          → xor_stream (u32 (counter + 1)) 0 (drop 64 bs)
            ≡ xor_stream counter (length (take 64 bs) + 0) (drop 64 bs)
      next (yes h) = rw (drop_all 64 bs (omega arith)) refl
      next (no h) =
          sym (xor_stream-shift counter 0 (drop 64 bs))
          ∙ ap (λ (k : ℕ). xor_stream counter k (drop 64 bs)) (omega (arith, length-take 64 bs))

  -- The loop ends with one round of fuel for each byte and one more, and gives the stream.
  loop-stream :
      (fuel counter : ℕ) (bs : List ℕ)
      → counter < 2 ^ 32
      → length bs < fuel
      → crypt_loop host fuel key nonce counter bs ≡ some (xor_stream counter 0 bs)
  unfolding crypt_loop
  loop-stream zero counter bs p h = absurd (omega arith)
  loop-stream (suc fuel) counter [] p h = unfold xor_stream in refl
  loop-stream (suc fuel) counter (b ∷ bs) p h =
      let ih =
        loop-stream fuel (u32 (counter + 1)) (drop 64 (b ∷ bs)) (omega arith)
          (omega (arith, length-drop 64 (b ∷ bs))) in
      rw ih (ap some (round-stream counter (b ∷ bs) p))

-- The cipher ends on all data and any 32-bit initial counter, and combines each byte with the byte of
-- the key stream at its place.
pub chacha20_crypt-stream :
    (host : Endian) (key nonce : List ℕ) (counter : ℕ) (bs : List ℕ)
    → counter < 2 ^ 32
    → chacha20_crypt host key nonce counter bs ≡ some (xor_stream host key nonce counter 0 bs)
unfolding chacha20_crypt
chacha20_crypt-stream host key nonce counter bs p =
    loop-stream host key nonce (length bs + 1) counter bs p (omega arith)
