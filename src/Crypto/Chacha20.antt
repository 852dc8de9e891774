-- ===== src/Crypto/Chacha20.antt =====
-- ChaCha20: the quarter round, the block function, the key setup and the cipher. A state is the list
-- of its sixteen 32-bit words.
pub mod Block
pub mod Stream
pub mod Vectors
use nova_net.Prelude.{
  ℕ, zero, suc, ◌+◌, ◌-◌, ◌*◌, List, [], ◌∷◌, ◌++◌, get_or, set, take, drop, replicate, bit_or,
  bit_xor, Option, none, some, length, u32, ◌<<<◌, ◌>>>◌,
}
use nova_net.Wire.{Endian, nn_read_u32le, nn_write_u32le}

-- `NN_CHACHA20_BLOCK_SIZE` and `NN_CHACHA20_NONCE_SIZE`
abbrev pub chacha20_block_size : ℕ
chacha20_block_size = 64

abbrev pub chacha20_nonce_size : ℕ
chacha20_nonce_size = 12

pub rotl32 : ℕ → ℕ → ℕ
rotl32 v n = bit_or (u32 (v <<< n)) (v >>> (32 - n))

-- The four words of a quarter round.
pub record Quarter : Type 0 where
  pub a : ℕ
  pub b : ℕ
  pub c : ℕ
  pub d : ℕ

-- `a += b; d ^= a; d = ROTL32(d, n);` and the same on `c`, `d` and `b`.
pub upper_half : ℕ → Quarter → Quarter
upper_half n q = let a = u32 (q.a + q.b) in record q { a = a; d = rotl32 (bit_xor q.d a) n }

pub lower_half : ℕ → Quarter → Quarter
lower_half n q = let c = u32 (q.c + q.d) in record q { c = c; b = rotl32 (bit_xor q.b c) n }

-- `QR`
pub quarter_round : Quarter → Quarter
quarter_round q = lower_half 7 (upper_half 8 (lower_half 12 (upper_half 16 q)))

-- `QR(x[i], x[j], x[k], x[l])`
pub quarter_at : (i j k l : ℕ) → List ℕ → List ℕ
quarter_at i j k l x =
    let q =
      quarter_round
        (record { a = get_or x i 0; b = get_or x j 0; c = get_or x k 0; d = get_or x l 0 }) in
    set (set (set (set x i q.a) j q.b) k q.c) l q.d

-- The column rounds, then the diagonal ones.
pub double_round : List ℕ → List ℕ
double_round x =
    let columns =
      quarter_at 3 7 11 15 (quarter_at 2 6 10 14 (quarter_at 1 5 9 13 (quarter_at 0 4 8 12 x))) in
    quarter_at 3 4 9 14 (quarter_at 2 7 8 13 (quarter_at 1 6 11 12 (quarter_at 0 5 10 15 columns)))

pub double_rounds : ℕ → List ℕ → List ℕ
double_rounds zero x = x
double_rounds (suc n) x = double_rounds n (double_round x)

-- `x[i] += state[i]`
pub add_words : List ℕ → List ℕ → List ℕ
add_words [] state = []
add_words (x ∷ xs) [] = []
add_words (x ∷ xs) (s ∷ state) = u32 (x + s) ∷ add_words xs state

abbrev pub chacha20_constants : List ℕ
chacha20_constants = 0x61707865 ∷ 0x3320646E ∷ 0x79622D32 ∷ 0x6B206574 ∷ []

-- The bytes `data[i] ^= block[i]`, as far as the data go.
pub xor_bytes : List ℕ → List ℕ → List ℕ
xor_bytes [] block = []
xor_bytes (x ∷ xs) [] = []
xor_bytes (x ∷ xs) (k ∷ block) = bit_xor x k ∷ xor_bytes xs block

module _ (host : Endian) where
  -- The words from index `i` on, written to `out`.
  pub serialize : ℕ → List ℕ → List ℕ → List ℕ
  serialize i [] out = out
  serialize i (x ∷ xs) out = serialize (i + 1) xs (nn_write_u32le host out (i * 4) x)

  -- `out` is written whole, so it is given as zeros.
  pub chacha20_block : List ℕ → List ℕ
  chacha20_block state =
      serialize 0 (add_words (double_rounds 10 state) state) (replicate chacha20_block_size 0)

  pub chacha20_setup : List ℕ → ℕ → List ℕ → List ℕ
  chacha20_setup key counter nonce =
      let k = (λ (i : ℕ). nn_read_u32le host key i) in
      let n = (λ (i : ℕ). nn_read_u32le host nonce i) in
      chacha20_constants
      ++ (k 0 ∷ k 4 ∷ k 8 ∷ k 12 ∷ k 16 ∷ k 20 ∷ k 24 ∷ k 28 ∷ counter ∷ n 0 ∷ n 4 ∷ n 8 ∷ [])

  -- The bytes of one block of the key stream.
  abbrev pub block_of : List ℕ → List ℕ → ℕ → List ℕ
  block_of key nonce counter = chacha20_block (chacha20_setup key counter nonce)

  -- The loop on fuel, a round for each block; `none` means that the fuel ran out.
  pub crypt_loop : ℕ → List ℕ → List ℕ → ℕ → List ℕ → Option (List ℕ)
  crypt_loop zero key nonce counter bytes = none
  crypt_loop (suc fuel) key nonce counter [] = some []
  crypt_loop (suc fuel) key nonce counter (b ∷ bs) =
      let done = xor_bytes (take chacha20_block_size (b ∷ bs)) (block_of key nonce counter) in
      elim (crypt_loop fuel key nonce (u32 (counter + 1)) (drop chacha20_block_size (b ∷ bs)))
        as (λ _. Option (List ℕ)) [ none ↦ none | some rest ↦ some (done ++ rest) ]

  -- The data `data[0..len)` after the call.
  pub chacha20_crypt : List ℕ → List ℕ → ℕ → List ℕ → Option (List ℕ)
  chacha20_crypt key nonce initial_counter bytes =
      crypt_loop (length bytes + 1) key nonce initial_counter bytes
