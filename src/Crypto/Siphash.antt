-- ===== src/Crypto/Siphash.antt =====
-- cbits/nn_siphash.c: SipHash-2-4, which makes the cookies of the handshake.
pub mod Padding
pub mod Vectors
use nova_net.Prelude.{
  ℕ, zero, suc, ◌+◌, ◌-◌, ◌*◌, ◌/◌, ◌%◌, ◌^◌, List, [], ◌∷◌, drop, get_or, bit_and, bit_or, bit_xor,
  u64, ◌<<<◌, ◌>>>◌,
}
use nova_net.Wire.{Endian, nn_read_u64le}

pub nn_rotl64 : ℕ → ℕ → ℕ
nn_rotl64 x b = bit_or (u64 (x <<< b)) (x >>> (64 - b))

-- The four words of the state.
pub record SipState : Type 0 where
  pub v0 : ℕ
  pub v1 : ℕ
  pub v2 : ℕ
  pub v3 : ℕ

-- `NN_SIPROUND`
pub sip_round : SipState → SipState
sip_round s =
    let v0 = u64 (s.v0 + s.v1) in
    let v1 = bit_xor (nn_rotl64 s.v1 13) v0 in
    let v0' = nn_rotl64 v0 32 in
    let v2 = u64 (s.v2 + s.v3) in
    let v3 = bit_xor (nn_rotl64 s.v3 16) v2 in
    let v0'' = u64 (v0' + v3) in
    let v3' = bit_xor (nn_rotl64 v3 21) v0'' in
    let v2' = u64 (v2 + v1) in
    let v1' = bit_xor (nn_rotl64 v1 17) v2' in
    record { v0 = v0''; v1 = v1'; v2 = nn_rotl64 v2' 32; v3 = v3' }

-- `v3 ^= m; NN_SIPROUND; NN_SIPROUND; v0 ^= m;`
pub compress : SipState → ℕ → SipState
compress s m =
    let t = sip_round (sip_round (record s { v3 = bit_xor s.v3 m })) in
    record t { v0 = bit_xor t.v0 m }

-- The four words from the halves of the key.
pub init_state : ℕ → ℕ → SipState
init_state k0 k1 = record {
  v0 = bit_xor k0 0x736f6d6570736575;
  v1 = bit_xor k1 0x646f72616e646f6d;
  v2 = bit_xor k0 0x6c7967656e657261;
  v3 = bit_xor k1 0x7465646279746573;
}

-- The finalization, after the last word.
pub finalize : SipState → ℕ
finalize s =
    let t = sip_round (sip_round (sip_round (sip_round (record s { v2 = bit_xor s.v2 0xFF })))) in
    bit_xor (bit_xor (bit_xor t.v0 t.v1) t.v2) t.v3

-- The cases of the switch fall through: case `left` adds byte `left - 1` and goes on below.
pub tail_word : ℕ → List ℕ → ℕ → ℕ
tail_word zero msg m = m
tail_word (suc left) msg m = tail_word left msg (bit_or m (u64 (get_or msg left 0 <<< (8 * left))))

module _ (host : Endian) where
  -- The swap of a big-endian host is that of `nn_bswap64`, written out again in the code.
  pub nn_load_u64le : List ℕ → ℕ → ℕ
  nn_load_u64le p off = nn_read_u64le host p off

  -- The loop from `msg` to `end`, a round for each eight bytes.
  pub absorb_words : ℕ → SipState → List ℕ → SipState
  absorb_words zero s msg = s
  absorb_words (suc rounds) s msg =
      absorb_words rounds (compress s (nn_load_u64le msg 0)) (drop 8 msg)

  pub nn_siphash_2_4 : List ℕ → List ℕ → ℕ → ℕ
  nn_siphash_2_4 key msg msg_len =
      let k0 = nn_load_u64le key 0 in
      let k1 = nn_load_u64le key 8 in
      let blocks = (msg_len - msg_len % 8) / 8 in
      let s = absorb_words blocks (init_state k0 k1) msg in
      let left = bit_and msg_len 7 in
      let m = tail_word left (drop (blocks * 8) msg) (u64 (bit_and msg_len 0xFF <<< 56)) in
      finalize (compress s m)
