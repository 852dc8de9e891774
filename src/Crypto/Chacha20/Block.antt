-- ===== src/Crypto/Chacha20/Block.antt =====
-- The block function gives sixty-four bytes, whatever the state.
use nova_net.Prelude.{
  ℕ, ◌+◌, ◌*◌, ◌^◌, ◌<◌, ◌≡◌, refl, ap, ◌∙◌, List, [], ◌∷◌, length, replicate, length-replicate,
  arith,
}
use nova_net.Wire.{Endian, IsBytes, le_bytes, nn_write_u32le}
use nova_net.Wire.Buffer.{length-store}
use nova_net.Wire.Bytes.{write_u32-le_bytes, IsBytes-store, IsBytes-le_bytes, IsBytes-replicate}
use nova_net.Crypto.Chacha20.{
  add_words, serialize, chacha20_block, chacha20_block_size, double_rounds,
}

-- Words of 32 bits.
abbrev AllWords : List ℕ → Type 0
AllWords [] = Unit
AllWords (x ∷ xs) = (x < 2 ^ 32) × AllWords xs

add_words-AllWords : (xs state : List ℕ) → AllWords (add_words xs state)
unfolding add_words
add_words-AllWords [] state = tt
add_words-AllWords (x ∷ xs) [] = tt
add_words-AllWords (x ∷ xs) (s ∷ state) = (omega arith, add_words-AllWords xs state)

module _ (host : Endian) where
  serialize-IsBytes :
      (i : ℕ) (xs out : List ℕ)
      → AllWords xs
      → IsBytes out
      → IsBytes (serialize host i xs out) × (length (serialize host i xs out) ≡ length out)
  unfolding serialize
  serialize-IsBytes i [] out w b = (b, refl)
  serialize-IsBytes i (x ∷ xs) out w b =
      let out' = nn_write_u32le host out (i * 4) x in
      let e = write_u32-le_bytes host out (i * 4) x w.0 in
      let b' : IsBytes out' =
        rw e (IsBytes-store out (i * 4) (le_bytes 4 x) b (IsBytes-le_bytes 4 x)) in
      let (bytes, len) = serialize-IsBytes (i + 1) xs out' w.1 b' in
      (bytes, len ∙ ap length e ∙ length-store out (i * 4) (le_bytes 4 x))

  pub block-IsBytes :
      (state : List ℕ)
      → IsBytes (chacha20_block host state)
        × (length (chacha20_block host state) ≡ chacha20_block_size)
  unfolding chacha20_block
  block-IsBytes state =
      let words = add_words (double_rounds 10 state) state in
      let (bytes, len) =
        serialize-IsBytes 0 words (replicate 64 0)
          (add_words-AllWords (double_rounds 10 state) state) (IsBytes-replicate 64) in
      (bytes, len ∙ length-replicate {A = ℕ} 64 0)
