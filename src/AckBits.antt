-- ===== src/AckBits.antt =====
-- `nn_ack_update` of cbits/nn_seq.c: the remote sequence number and the 64-bit field of the numbers
-- received before it. Digit `i` of the field stands for the number `remote_seq - 1 - i`.
pub mod Digits
pub mod Window
pub mod Sound
pub mod Tests
use nova_net.Prelude.{ℕ, ◌-◌, ◌≤◌, bit_or, Bool, ◌&&◌, ltb, leb, if◌then◌else◌, u64, not64, ◌<<<◌}
use nova_net.Prelude.Int.{ℤ, pos, negsuc, ltb_ℤ}
use nova_net.Seq.{nn_seq_gt, nn_seq_diff}

-- `NN_ACK_BITS_WINDOW`
abbrev pub ack_bits_window : ℕ
ack_bits_window = 64

pub record AckState : Type 0 where
  pub remote_seq : ℕ
  pub ack_bits : ℕ

-- The cast of a signed number to `uint64_t`.
abbrev pub to_u64 : ℤ → ℕ
to_u64 (pos n) = u64 n
to_u64 (negsuc n) = not64 (u64 n)

unfoldable pub nn_ack_update : AckState → ℕ → AckState
nn_ack_update st seq =
    if nn_seq_gt seq st.remote_seq
    then (let shift = to_u64 (nn_seq_diff seq st.remote_seq) in
        record {
          remote_seq = seq;
          ack_bits =
              if ltb shift ack_bits_window
              then bit_or (u64 (st.ack_bits <<< shift)) (u64 (1 <<< (shift - 1)))
              else 0;
        })
    else (let d = nn_seq_diff st.remote_seq seq in
        if ltb_ℤ (pos 0) d && leb (to_u64 d) ack_bits_window
        then record st { ack_bits = bit_or st.ack_bits (u64 (1 <<< (to_u64 d - 1))) }
        else st)
