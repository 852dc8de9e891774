-- ===== src/AckBits/Window.antt =====
-- The remote number and its field as a set of received numbers: those up to 64 behind.
use nova_net.Prelude.{
  ℕ, ◌+◌, ◌-◌, ◌^◌, ◌≤◌, ◌<◌, ◌≡◌, ◌≢◌, Bool, true, false, ◌&&◌, ◌||◌, arith, ◌==◌, leb,
  if◌then◌else◌, Bool-cases, inl, inr, ◌⊎◌, u16,
}
use nova_net.Prelude.Bits.{bit, bit-le-one, bit_zero}
use nova_net.Seq.{nn_seq_gt}
use nova_net.Seq.Order.{behind, diff-ahead, seq_advance}
use nova_net.AckBits.{AckState, nn_ack_update, ack_bits_window}
use nova_net.AckBits.Digits.{bit-shifted, bit-marked, update_newer, update_older}

-- Does the state acknowledge `t`?
unfoldable pub acks : AckState → ℕ → Bool
acks st t =
    let k = behind t st.remote_seq in
    if k == 0 then true else leb k ack_bits_window && bit st.ack_bits (k - 1) == 1

module _ (st : AckState) (s t : ℕ) (p : st.remote_seq < 2 ^ 16) (q : s < 2 ^ 16)
    (r : t < 2 ^ 16) where
  abbrev Keeps : Type 0
  Keeps = acks (nn_ack_update st s) t ≡ (t == s || acks st t)

  newer_keeps :
      nn_seq_gt s st.remote_seq ≡ true
      → behind t s ≤ ack_bits_window
      → (behind st.remote_seq s ≢ ack_bits_window) ⊎ (t ≢ st.remote_seq)
      → Keeps
  unfolding acks
  newer_keeps h w jump = rw (update_newer st s p q h) (
      ground (
        arith,
        diff-ahead s st.remote_seq q p h,
        bit-shifted st.ack_bits (behind st.remote_seq s) (behind t s - 1),
        bit-le-one st.ack_bits (behind t s - 1 - behind st.remote_seq s),
        bit_zero (behind t s - 1),
      ))

  older_keeps : nn_seq_gt s st.remote_seq ≡ false → behind t st.remote_seq ≤ ack_bits_window → Keeps
  unfolding acks
  older_keeps h w = rw (update_older st s p q h) (
      ground (
        arith,
        bit-marked st.ack_bits (behind s st.remote_seq) (behind t st.remote_seq - 1),
        bit-le-one st.ack_bits (behind t st.remote_seq - 1),
      ))

  -- For 16-bit numbers, within the window of 64 of the new state, an update adds the received
  -- number and keeps all that was acknowledged before; excepted is the number before a jump of
  -- exactly 64.
  pub acks-update :
      behind t (nn_ack_update st s).remote_seq ≤ ack_bits_window
      → (behind st.remote_seq s ≢ ack_bits_window) ⊎ (t ≢ st.remote_seq)
      → Keeps
  acks-update w jump = elim (Bool-cases (nn_seq_gt s st.remote_seq)) [
    | inl newer ↦ newer_keeps newer (rw (update_newer st s p q newer) at w) jump
    | inr older ↦ older_keeps older (ground (arith, w, update_older st s p q older))
  ]

-- After a jump of exactly 64 the 16-bit number before it is not acknowledged, though it was before
-- and is 64 behind.
pub jump_of_window_forgets :
    (st : AckState)
    → st.remote_seq < 2 ^ 16
    → let s = u16 (st.remote_seq + ack_bits_window) in
      (behind st.remote_seq s ≡ ack_bits_window)
      × (acks st st.remote_seq ≡ true)
      × (acks (nn_ack_update st s) st.remote_seq ≡ false)
unfolding acks
jump_of_window_forgets st p =
    let s = u16 (st.remote_seq + 64) in
    (
      omega arith,
      ground arith,
      rw
          (update_newer st s p (omega arith)
            (seq_advance st.remote_seq 64 p (omega arith) (omega arith)).0)
          (ground (arith, bit_zero (behind st.remote_seq s - 1))),
    )
