-- ===== src/AckBits/Sound.antt =====
-- An update acknowledges nothing that was not received.
use nova_net.Prelude.{
  ℕ, ◌^◌, ◌≤◌, ◌<◌, ◌≡◌, ◌≢◌, ap, ◌∙◌, true, ◌==◌, ==_iff, Bool-cases, inl, inr, ◌⊎◌, arith,
}
use nova_net.Seq.{nn_seq_gt}
use nova_net.Seq.Order.{behind}
use nova_net.AckBits.{AckState, nn_ack_update, ack_bits_window}
use nova_net.AckBits.Window.{acks, acks-update}
use nova_net.AckBits.Digits.{update_newer, update_older}

acks_within : (st : AckState) (t : ℕ) → acks st t ≡ true → behind t st.remote_seq ≤ ack_bits_window
unfolding acks
acks_within st t e = ground arith

acks_remote : (st : AckState) → st.remote_seq < 2 ^ 16 → acks st st.remote_seq ≡ true
unfolding acks
acks_remote st p = ground arith

-- For 16-bit numbers, an update acknowledges the received number, or what was acknowledged before.
pub acks-update_sound :
    (st : AckState) (s t : ℕ)
    → st.remote_seq < 2 ^ 16
    → s < 2 ^ 16
    → t < 2 ^ 16
    → acks (nn_ack_update st s) t ≡ true
    → (t ≡ s) ⊎ (acks st t ≡ true)
acks-update_sound st s t p q r e = elim (Bool-cases (t == st.remote_seq)) [
  | inl same ↦ inr (ap (acks st) ((==_iff t st.remote_seq).0 same) ∙ acks_remote st p)
  | inr other ↦
      let differ : t ≢ st.remote_seq = ground arith in
      let kept = acks-update st s t p q r (acks_within (nn_ack_update st s) t e) (inr differ) in
      ground (arith, kept)
]

pub remote-update :
    (st : AckState) (s : ℕ)
    → st.remote_seq < 2 ^ 16
    → s < 2 ^ 16
    → (nn_ack_update st s).remote_seq < 2 ^ 16
remote-update st s p q = elim (Bool-cases (nn_seq_gt s st.remote_seq)) [
  | inl newer ↦ rw (update_newer st s p q newer) q
  | inr older ↦ ground (arith, update_older st s p q older)
]
