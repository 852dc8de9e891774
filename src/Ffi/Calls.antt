-- ===== src/Ffi/Calls.antt =====
-- The entry points of cbits/nn_ffi.c that change what is behind a handle, as steps of one heap.
use mathlib.Core.Option
use nova_net.Prelude.{ℕ, Bool, true, false, Option, List, [], ◌∷◌}
use nova_net.Prelude.Int.{ℤ}
use nova_net.Congestion.Double.{Double}
use nova_net.Bandwidth.{Constants}
use nova_net.Ffi.{
  Kind, Heap, bandwidth_kind, recv_buf_kind, rtt_kind, sent_buf_kind, loss_window_kind, aimd_kind,
  cwnd_kind,
}
use nova_net.Ffi.Objects.{
  nn_ffi_bandwidth_init, nn_ffi_bandwidth_record, nn_ffi_recv_buf_init, nn_ffi_recv_buf_insert,
  nn_ffi_rtt_init, nn_ffi_rtt_update, nn_ffi_sent_buf_init, nn_ffi_sent_buf_insert,
  nn_ffi_loss_window_init, nn_ffi_ack_process, nn_ffi_cong_aimd_init, nn_ffi_cong_aimd_tick,
  nn_ffi_cong_aimd_deduct, nn_ffi_cong_cwnd_init, nn_ffi_cong_cwnd_on_ack, nn_ffi_cong_cwnd_on_loss,
  nn_ffi_cong_cwnd_on_send, nn_ffi_cong_cwnd_check_idle, nn_ffi_cong_cwnd_on_ack_seq,
  nn_ffi_cong_cwnd_set_srtt,
}

pub data Call (F : Type 0) : Type 0 where
  bandwidth_init : (bw : ℕ) (window_ms : F) → Call F
  bandwidth_record : (bw size now_ns : ℕ) → Call F
  recv_buf_init : (buf : ℕ) → Call F
  recv_buf_insert : (buf seq : ℕ) → Call F
  rtt_init : (r : ℕ) → Call F
  rtt_update : (r : ℕ) (sample_ns : ℤ) → Call F
  sent_buf_init : (buf : ℕ) → Call F
  sent_buf_insert : (buf seq channel_id channel_seq send_time_ns size : ℕ) → Call F
  loss_window_init : (lw : ℕ) → Call F
  ack_process : (buf lw ack_seq ack_bitfield now_ns : ℕ) → Call F
  aimd_init : (c : ℕ) (base_rate loss_threshold : F) (rtt_threshold_ns : ℤ) → Call F
  aimd_tick : (c : ℕ) (dt_sec loss_frac : F) (srtt_ns now_ns : ℤ) → Call F
  aimd_deduct : (c : ℕ) → Call F
  cwnd_init : (c mss : ℕ) → Call F
  cwnd_on_ack : (c : ℕ) (acked_bytes : ℤ) → Call F
  cwnd_on_loss : (c loss_seq : ℕ) (now_ns : ℤ) → Call F
  cwnd_on_send : (c : ℕ) (pkt_size now_ns : ℤ) → Call F
  cwnd_check_idle : (c : ℕ) (now_ns rto_ns : ℤ) → Call F
  cwnd_on_ack_seq : (c acked_seq : ℕ) (acked_bytes : ℤ) → Call F
  cwnd_set_srtt : (c : ℕ) (srtt_ns : ℤ) → Call F

-- The handles of a call, each with the struct that the call takes it for.
abbrev pub uses : {F : Type 0} → Call F → List (ℕ × Kind)
uses (bandwidth_init bw _) = (bw, bandwidth_kind) ∷ []
uses (bandwidth_record bw _ _) = (bw, bandwidth_kind) ∷ []
uses (recv_buf_init buf) = (buf, recv_buf_kind) ∷ []
uses (recv_buf_insert buf _) = (buf, recv_buf_kind) ∷ []
uses (rtt_init r) = (r, rtt_kind) ∷ []
uses (rtt_update r _) = (r, rtt_kind) ∷ []
uses (sent_buf_init buf) = (buf, sent_buf_kind) ∷ []
uses (sent_buf_insert buf _ _ _ _ _) = (buf, sent_buf_kind) ∷ []
uses (loss_window_init lw) = (lw, loss_window_kind) ∷ []
uses (ack_process buf lw _ _ _) = (buf, sent_buf_kind) ∷ (lw, loss_window_kind) ∷ []
uses (aimd_init c _ _ _) = (c, aimd_kind) ∷ []
uses (aimd_tick c _ _ _ _) = (c, aimd_kind) ∷ []
uses (aimd_deduct c) = (c, aimd_kind) ∷ []
uses (cwnd_init c _) = (c, cwnd_kind) ∷ []
uses (cwnd_on_ack c _) = (c, cwnd_kind) ∷ []
uses (cwnd_on_loss c _ _) = (c, cwnd_kind) ∷ []
uses (cwnd_on_send c _ _) = (c, cwnd_kind) ∷ []
uses (cwnd_check_idle c _ _) = (c, cwnd_kind) ∷ []
uses (cwnd_on_ack_seq c _ _) = (c, cwnd_kind) ∷ []
uses (cwnd_set_srtt c _) = (c, cwnd_kind) ∷ []

-- The calls that write a struct into a new block, where the others expect one.
abbrev pub is_init : {F : Type 0} → Call F → Bool
is_init (bandwidth_init _ _) = true
is_init (recv_buf_init _) = true
is_init (rtt_init _) = true
is_init (sent_buf_init _) = true
is_init (loss_window_init _) = true
is_init (aimd_init _ _ _ _) = true
is_init (cwnd_init _ _) = true
is_init c = false

module _ {F : Type 0} (double : Double F) (constants : Constants F) (size_of : Kind → ℕ) where
  -- The heap after a call; the values that it returns are left out.
  unfoldable pub run : Call F → Heap F → Option (Heap F)
  run (bandwidth_init bw window_ms) h =
      nn_ffi_bandwidth_init double constants size_of h bw window_ms
  run (bandwidth_record bw size now_ns) h =
      nn_ffi_bandwidth_record double constants size_of h bw size now_ns
  run (recv_buf_init buf) h = nn_ffi_recv_buf_init double constants size_of h buf
  run (recv_buf_insert buf seq) h = nn_ffi_recv_buf_insert double constants size_of h buf seq
  run (rtt_init r) h = nn_ffi_rtt_init double constants size_of h r
  run (rtt_update r sample_ns) h = nn_ffi_rtt_update double constants size_of h r sample_ns
  run (sent_buf_init buf) h = nn_ffi_sent_buf_init double constants size_of h buf
  run (sent_buf_insert buf seq channel_id channel_seq send_time_ns size) h =
      Option.map (λ r. r.0)
        (nn_ffi_sent_buf_insert double constants size_of h buf seq channel_id channel_seq
          send_time_ns size)
  run (loss_window_init lw) h = nn_ffi_loss_window_init double constants size_of h lw
  run (ack_process buf lw ack_seq ack_bitfield now_ns) h =
      Option.map (λ r. r.0)
        (nn_ffi_ack_process double constants size_of h buf lw ack_seq ack_bitfield now_ns)
  run (aimd_init c base_rate loss_threshold rtt_threshold_ns) h =
      nn_ffi_cong_aimd_init double constants size_of h c base_rate loss_threshold rtt_threshold_ns
  run (aimd_tick c dt_sec loss_frac srtt_ns now_ns) h =
      nn_ffi_cong_aimd_tick double constants size_of h c dt_sec loss_frac srtt_ns now_ns
  run (aimd_deduct c) h = nn_ffi_cong_aimd_deduct double constants size_of h c
  run (cwnd_init c mss) h = nn_ffi_cong_cwnd_init double constants size_of h c mss
  run (cwnd_on_ack c acked_bytes) h =
      nn_ffi_cong_cwnd_on_ack double constants size_of h c acked_bytes
  run (cwnd_on_loss c loss_seq now_ns) h =
      nn_ffi_cong_cwnd_on_loss double constants size_of h c loss_seq now_ns
  run (cwnd_on_send c pkt_size now_ns) h =
      nn_ffi_cong_cwnd_on_send double constants size_of h c pkt_size now_ns
  run (cwnd_check_idle c now_ns rto_ns) h =
      nn_ffi_cong_cwnd_check_idle double constants size_of h c now_ns rto_ns
  run (cwnd_on_ack_seq c acked_seq acked_bytes) h =
      nn_ffi_cong_cwnd_on_ack_seq double constants size_of h c acked_seq acked_bytes
  run (cwnd_set_srtt c srtt_ns) h = nn_ffi_cong_cwnd_set_srtt double constants size_of h c srtt_ns
