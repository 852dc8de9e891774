-- ===== src/Link/AckUpdate.antt =====
-- `ackUpdate` of src/NovaNet/Reliability.hs against `nn_ack_update` of cbits/nn_seq.c.
use nova_net.Prelude.{
  ℕ, ◌-◌, refl, inl, inr, Bool-cases, ltb, leb, ◌&&◌, if◌then◌else◌, bit_or, u64, ◌<<<◌, ◌^◌, ◌<◌,
  ◌≡◌, arith,
}
use nova_net.Prelude.Int.{ℤ, pos, ltb_ℤ}
use nova_net.Seq.Order.{behind, diff-behind}
use nova_net.Seq.{nn_seq_gt, nn_seq_diff}
use nova_net.AckBits.{AckState, nn_ack_update, to_u64, ack_bits_window}
use nova_net.Link.{ack_update}

older_case :
    (st : AckState) (d : ℤ) (n : ℕ)
    → d ≡ pos n
    → n < 2 ^ 16
    → record st {
      ack_bits =
          if ltb 0 (to_u64 d) && leb (to_u64 d) ack_bits_window
          then bit_or st.ack_bits (u64 (1 <<< (to_u64 d - 1)))
          else st.ack_bits;
    }
      ≡ (if ltb_ℤ (pos 0) d && leb (to_u64 d) ack_bits_window
          then record st { ack_bits = bit_or st.ack_bits (u64 (1 <<< (to_u64 d - 1))) }
          else st)
older_case st d n e p = rw e (ground arith)

-- The client and the core update the field in the same way.
pub ack_update-nn_ack_update :
    (st : AckState) (seq : ℕ)
    → st.remote_seq < 2 ^ 16
    → seq < 2 ^ 16
    → ack_update st seq ≡ nn_ack_update st seq
unfolding ack_update nn_ack_update
ack_update-nn_ack_update st seq p q = elim (Bool-cases (nn_seq_gt seq st.remote_seq)) [
  | inl e ↦ rw e refl
  | inr e ↦
      let d = nn_seq_diff st.remote_seq seq in
      rw e (
        older_case st d (behind seq st.remote_seq) (diff-behind seq st.remote_seq q p e)
          (omega arith))
]
