-- ===== src/Congestion/Cwnd/Flight.antt =====
-- The bytes in flight, over all calls on a congestion window.
use nova_net.Prelude.{ℕ, ◌≡◌, refl, Bool-cases, inl, inr, arith}
use nova_net.Prelude.Int.{ℤ, pos, ◌+ℤ◌, ◌-ℤ◌, ◌≤ℤ◌, ltb_ℤ, leb_ℤ, scale_ℤ}
use nova_net.Congestion.Double.{Double}
use nova_net.Congestion.Cwnd.{
  CongCwnd, Phase, slow_start, avoidance, recovery, idle_rtos, grow, enter_recovery, lose,
  nn_cong_cwnd_init, nn_cong_cwnd_on_ack, nn_cong_cwnd_on_loss, nn_cong_cwnd_on_send,
  nn_cong_cwnd_check_idle, nn_cong_cwnd_on_ack_seq,
}

-- The bytes in flight are not negative.
abbrev pub IsFlight : {F : Type 0} → CongCwnd F → Type 0
IsFlight c = pos 0 ≤ℤ c.in_flight

module _ {F : Type 0} (double : Double F) where
  pub init-IsFlight : (mss : ℕ) → IsFlight (nn_cong_cwnd_init double mss)
  unfolding nn_cong_cwnd_init
  init-IsFlight mss = omega arith

  -- An acknowledgement grows the window alone.
  flight-grow :
      (p : Phase) (c : CongCwnd F) (acked_bytes : ℤ)
      → (grow double p c acked_bytes).in_flight ≡ c.in_flight
  unfolding grow
  flight-grow slow_start c acked_bytes = refl
  flight-grow avoidance c acked_bytes = refl
  flight-grow recovery c acked_bytes = refl

  pub on_ack-IsFlight :
      (c : CongCwnd F) (acked_bytes : ℤ)
      → IsFlight c
      → IsFlight (nn_cong_cwnd_on_ack double c acked_bytes)
  unfolding nn_cong_cwnd_on_ack
  on_ack-IsFlight c acked_bytes v = rw (flight-grow c.phase c acked_bytes) v

  flight-lose :
      (p : Phase) (c : CongCwnd F) (loss_seq : ℕ) (now_ns : ℤ)
      → (lose double p c loss_seq now_ns).in_flight ≡ c.in_flight
  unfolding lose enter_recovery
  flight-lose slow_start c loss_seq now_ns = refl
  flight-lose avoidance c loss_seq now_ns = refl
  flight-lose recovery c loss_seq now_ns = refl

  pub on_loss-IsFlight :
      (c : CongCwnd F) (loss_seq : ℕ) (now_ns : ℤ)
      → IsFlight c
      → IsFlight (nn_cong_cwnd_on_loss double c loss_seq now_ns)
  unfolding nn_cong_cwnd_on_loss
  on_loss-IsFlight c loss_seq now_ns v = rw (flight-lose c.phase c loss_seq now_ns) v

  flight-check_idle :
      (c : CongCwnd F) (now_ns rto_ns : ℤ)
      → (nn_cong_cwnd_check_idle double c now_ns rto_ns).in_flight ≡ c.in_flight
  unfolding nn_cong_cwnd_check_idle
  flight-check_idle c now_ns rto_ns = elim (Bool-cases (leb_ℤ (scale_ℤ idle_rtos rto_ns) (pos 0))) [
    | inl off ↦ rw off refl
    | inr on ↦ elim (Bool-cases (leb_ℤ (scale_ℤ idle_rtos rto_ns) (now_ns -ℤ c.last_activity_ns))) [
      | inl idle ↦ rw (on, idle) refl
      | inr busy ↦ rw (on, busy) refl
    ]
  ]

  pub check_idle-IsFlight :
      (c : CongCwnd F) (now_ns rto_ns : ℤ)
      → IsFlight c
      → IsFlight (nn_cong_cwnd_check_idle double c now_ns rto_ns)
  check_idle-IsFlight c now_ns rto_ns v = rw (flight-check_idle c now_ns rto_ns) v

  -- A packet whose size is not negative adds to them.
  pub on_send-IsFlight :
      (c : CongCwnd F) (pkt_size now_ns : ℤ)
      → pos 0 ≤ℤ pkt_size
      → IsFlight c
      → IsFlight (nn_cong_cwnd_on_send double c pkt_size now_ns)
  unfolding nn_cong_cwnd_on_send ◌+ℤ◌
  on_send-IsFlight c pkt_size now_ns h v = ground arith

  -- Whatever an acknowledgement takes off, the bytes in flight stop at 0.
  pub on_ack_seq-IsFlight :
      (c : CongCwnd F) (acked_seq : ℕ) (acked_bytes : ℤ)
      → IsFlight (nn_cong_cwnd_on_ack_seq double c acked_seq acked_bytes)
  unfolding nn_cong_cwnd_on_ack_seq
  on_ack_seq-IsFlight c acked_seq acked_bytes =
      elim (Bool-cases (ltb_ℤ (c.in_flight -ℤ acked_bytes) (pos 0))) [
        | inl below ↦ rw below (omega arith)
        | inr above ↦ rw above (ground arith)
      ]
