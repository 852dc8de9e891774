-- ===== src/AckBits/Digits.antt =====
-- The digits of the field after an update, by the distance of the received number.
use nova_net.Prelude.{
  ℕ, ◌-◌, ◌*◌, ◌%◌, ◌^◌, ◌<◌, ◌≡◌, true, false, max, arith, ◌==◌, ltb, leb, ◌&&◌, if◌then◌else◌,
  bit_or,
}
use nova_net.Prelude.Bits.{bit, bit-bit_or, bit-shl, bit-pow, bit-mod_pow}
use nova_net.Seq.{nn_seq_gt}
use nova_net.Seq.Order.{behind, diff-behind, diff-ahead}
use nova_net.AckBits.{AckState, nn_ack_update}

-- The digits of the shifted field with the old remote number put in.
pub shifted : ℕ → ℕ → ℕ
shifted bits d = bit_or (bits * 2 ^ d % 2 ^ 64) (1 * 2 ^ (d - 1) % 2 ^ 64)

pub bit-shifted :
    (bits d k : ℕ)
    → 0 < d
    → k < 64
    → bit (shifted bits d) k
      ≡ max (if ltb k d then 0 else bit bits (k - d)) (if d - 1 == k then 1 else 0)
unfolding shifted
bit-shifted bits d k p h = ground (
  arith,
  bit-bit_or (bits * 2 ^ d % 2 ^ 64) (1 * 2 ^ (d - 1) % 2 ^ 64) k,
  bit-mod_pow 64 (bits * 2 ^ d) k,
  bit-mod_pow 64 (1 * 2 ^ (d - 1)) k,
  bit-shl bits d k,
  bit-pow (d - 1) k,
)

-- The field with the digit of an older number set.
pub marked : ℕ → ℕ → ℕ
marked bits d = bit_or bits (1 * 2 ^ (d - 1) % 2 ^ 64)

pub bit-marked :
    (bits d k : ℕ) → k < 64 → bit (marked bits d) k ≡ max (bit bits k) (if d - 1 == k then 1 else 0)
unfolding marked
bit-marked bits d k h = ground (
  arith,
  bit-bit_or bits (1 * 2 ^ (d - 1) % 2 ^ 64) k,
  bit-mod_pow 64 (1 * 2 ^ (d - 1)) k,
  bit-pow (d - 1) k,
)

pub update_newer :
    (st : AckState) (s : ℕ)
    → st.remote_seq < 2 ^ 16
    → s < 2 ^ 16
    → nn_seq_gt s st.remote_seq ≡ true
    → let d = behind st.remote_seq s in
      nn_ack_update st s
      ≡ record { remote_seq = s; ack_bits = if ltb d 64 then shifted st.ack_bits d else 0 }
unfolding nn_ack_update shifted
update_newer st s p q h = ground (arith, diff-ahead s st.remote_seq q p h)

pub update_older :
    (st : AckState) (s : ℕ)
    → st.remote_seq < 2 ^ 16
    → s < 2 ^ 16
    → nn_seq_gt s st.remote_seq ≡ false
    → let d = behind s st.remote_seq in
      nn_ack_update st s
      ≡ (if ltb 0 d && leb d 64 then record st { ack_bits = marked st.ack_bits d } else st)
unfolding nn_ack_update marked
update_older st s p q h = ground (arith, diff-behind s st.remote_seq q p h)
