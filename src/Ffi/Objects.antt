-- ===== src/Ffi/Objects.antt =====
-- The entry points of cbits/nn_ffi.c that take a handle.
use mathlib.Core.Option
use nova_net.Prelude.{ℕ, Bool, Option}
use nova_net.Prelude.Int.{ℤ}
use nova_net.RecvBuf.{nn_recv_buf_init, nn_recv_buf_exists, nn_recv_buf_insert}
use nova_net.Rtt.{nn_rtt_init, nn_rtt_update, nn_rtt_rto, nn_rtt_srtt}
use nova_net.SentBuf.{SentRecord, SentBuf, nn_sent_buf_init, nn_sent_buf_insert}
use nova_net.LossWindow.{LossWindow, nn_loss_window_init, nn_loss_window_percent}
use nova_net.AckProcess.{nn_ack_process}
use nova_net.Congestion.Double.{Double}
use nova_net.Congestion.Aimd.{
  nn_cong_aimd_init, nn_cong_aimd_tick, nn_cong_aimd_can_send, nn_cong_aimd_deduct,
  nn_cong_aimd_rate,
}
use nova_net.Congestion.Cwnd.{
  nn_cong_cwnd_init, nn_cong_cwnd_on_ack, nn_cong_cwnd_on_loss, nn_cong_cwnd_on_ack_seq,
  nn_cong_cwnd_pacing_ns, nn_cong_cwnd_check_idle, nn_cong_cwnd_can_send, nn_cong_cwnd_on_send,
}
use nova_net.Bandwidth.{Constants, nn_bandwidth_init, nn_bandwidth_record, nn_bandwidth_bps}
use nova_net.Ffi.{
  Kind, Heap, put, fetch, modify, inspect, install, bandwidth_kind, recv_buf_kind, rtt_kind,
  sent_buf_kind, loss_window_kind, aimd_kind, cwnd_kind, of_sent_buf, of_loss_window,
}
use nova_net.Ffi.Views.{
  bandwidth_view, recv_buf_view, rtt_view, sent_buf_view, loss_window_view, aimd_view, cwnd_view,
}

-- The struct that `nn_ffi_sent_buf_insert` builds of its arguments.
abbrev pub sent_record : (channel_id channel_seq send_time_ns size : ℕ) → SentRecord
sent_record channel_id channel_seq send_time_ns size = record {
  channel_id = channel_id;
  channel_seq = channel_seq;
  send_time_ns = send_time_ns;
  size = size;
  nack_count = 0;
  occupied = 1;
}

-- What `nn_ack_process` leaves in the two structs, and the six results.
abbrev pub acknowledged :
    {F : Type 0}
    → Heap F
    → (sent_buf loss_window ack_seq ack_bitfield now_ns : ℕ) → SentBuf
    → LossWindow
    → Heap F × (ℕ × ℕ × ℤ × ℕ × ℕ × ℕ)
acknowledged h sent_buf loss_window ack_seq ack_bitfield now_ns b lw =
    let run = nn_ack_process b lw ack_seq ack_bitfield now_ns in
    let r = run.result in
    (
      put (put h sent_buf (of_sent_buf run.sent)) loss_window (of_loss_window run.lw),
      (
        r.acked_count, r.acked_bytes, r.rtt_sample_ns, r.lost_count, r.fast_retransmit,
        r.retransmit_seq,
      ),
    )

-- `size_of` is the `sizeof` of the compiler.
module _ {F : Type 0} (double : Double F) (constants : Constants F) (size_of : Kind → ℕ) where
  unfoldable pub nn_ffi_bandwidth_size : ℕ
  nn_ffi_bandwidth_size = size_of bandwidth_kind

  unfoldable pub nn_ffi_bandwidth_init : Heap F → ℕ → F → Option (Heap F)
  nn_ffi_bandwidth_init h bw window_ms =
      install size_of bandwidth_view h bw (nn_bandwidth_init double constants window_ms)

  unfoldable pub nn_ffi_bandwidth_record : Heap F → ℕ → ℕ → ℕ → Option (Heap F)
  nn_ffi_bandwidth_record h bw size now_ns =
      modify bandwidth_view h bw (λ b. nn_bandwidth_record b size now_ns)

  unfoldable pub nn_ffi_bandwidth_bps : Heap F → ℕ → ℕ → Option F
  nn_ffi_bandwidth_bps h bw now_ns =
      inspect bandwidth_view h bw (λ b. nn_bandwidth_bps double constants b now_ns)

  unfoldable pub nn_ffi_recv_buf_size : ℕ
  nn_ffi_recv_buf_size = size_of recv_buf_kind

  unfoldable pub nn_ffi_recv_buf_init : Heap F → ℕ → Option (Heap F)
  nn_ffi_recv_buf_init h buf = install size_of recv_buf_view h buf nn_recv_buf_init

  unfoldable pub nn_ffi_recv_buf_exists : Heap F → ℕ → ℕ → Option Bool
  nn_ffi_recv_buf_exists h buf seq = inspect recv_buf_view h buf (λ b. nn_recv_buf_exists b seq)

  unfoldable pub nn_ffi_recv_buf_insert : Heap F → ℕ → ℕ → Option (Heap F)
  nn_ffi_recv_buf_insert h buf seq = modify recv_buf_view h buf (λ b. nn_recv_buf_insert b seq)

  unfoldable pub nn_ffi_recv_buf_highest : Heap F → ℕ → Option ℕ
  nn_ffi_recv_buf_highest h buf = inspect recv_buf_view h buf (λ b. b.highest)

  unfoldable pub nn_ffi_rtt_size : ℕ
  nn_ffi_rtt_size = size_of rtt_kind

  unfoldable pub nn_ffi_rtt_init : Heap F → ℕ → Option (Heap F)
  nn_ffi_rtt_init h r = install size_of rtt_view h r nn_rtt_init

  unfoldable pub nn_ffi_rtt_update : Heap F → ℕ → ℤ → Option (Heap F)
  nn_ffi_rtt_update h r sample_ns = modify rtt_view h r (λ s. nn_rtt_update s sample_ns)

  unfoldable pub nn_ffi_rtt_rto : Heap F → ℕ → Option ℤ
  nn_ffi_rtt_rto h r = inspect rtt_view h r nn_rtt_rto

  unfoldable pub nn_ffi_rtt_srtt : Heap F → ℕ → Option ℤ
  nn_ffi_rtt_srtt h r = inspect rtt_view h r nn_rtt_srtt

  unfoldable pub nn_ffi_sent_buf_size : ℕ
  nn_ffi_sent_buf_size = size_of sent_buf_kind

  unfoldable pub nn_ffi_sent_buf_init : Heap F → ℕ → Option (Heap F)
  nn_ffi_sent_buf_init h buf = install size_of sent_buf_view h buf nn_sent_buf_init

  -- The heap, and whether another packet was evicted.
  unfoldable pub nn_ffi_sent_buf_insert :
      Heap F → (buf seq channel_id channel_seq send_time_ns size : ℕ) → Option (Heap F × ℕ)
  nn_ffi_sent_buf_insert h buf seq channel_id channel_seq send_time_ns size =
      let rec = sent_record channel_id channel_seq send_time_ns size in
      Option.map
        (λ b.
          let (b', evicted) = nn_sent_buf_insert b seq rec in (put h buf (of_sent_buf b'), evicted))
        (fetch sent_buf_view h buf)

  unfoldable pub nn_ffi_sent_buf_count : Heap F → ℕ → Option ℕ
  nn_ffi_sent_buf_count h buf = inspect sent_buf_view h buf (λ b. b.count)

  unfoldable pub nn_ffi_loss_window_size : ℕ
  nn_ffi_loss_window_size = size_of loss_window_kind

  unfoldable pub nn_ffi_loss_window_init : Heap F → ℕ → Option (Heap F)
  nn_ffi_loss_window_init h lw = install size_of loss_window_view h lw nn_loss_window_init

  unfoldable pub nn_ffi_loss_window_percent : (ℕ → ℕ) → Heap F → ℕ → Option F
  nn_ffi_loss_window_percent popcount h lw =
      inspect loss_window_view h lw (nn_loss_window_percent popcount double)

  -- The heap, and what is written to the six pointers.
  unfoldable pub nn_ffi_ack_process :
      Heap F
      → (sent_buf loss_window ack_seq ack_bitfield now_ns : ℕ)
      → Option (Heap F × (ℕ × ℕ × ℤ × ℕ × ℕ × ℕ))
  nn_ffi_ack_process h sent_buf loss_window ack_seq ack_bitfield now_ns =
      Option.bind (fetch sent_buf_view h sent_buf) (λ b.
        Option.map (acknowledged h sent_buf loss_window ack_seq ack_bitfield now_ns b)
          (fetch loss_window_view h loss_window))

  unfoldable pub nn_ffi_cong_aimd_size : ℕ
  nn_ffi_cong_aimd_size = size_of aimd_kind

  unfoldable pub nn_ffi_cong_aimd_init : Heap F → ℕ → F → F → ℤ → Option (Heap F)
  nn_ffi_cong_aimd_init h c base_rate loss_threshold rtt_threshold_ns =
      install size_of aimd_view h c
        (nn_cong_aimd_init double base_rate loss_threshold rtt_threshold_ns)

  unfoldable pub nn_ffi_cong_aimd_tick : Heap F → ℕ → F → F → ℤ → ℤ → Option (Heap F)
  nn_ffi_cong_aimd_tick h c dt_sec loss_frac srtt_ns now_ns =
      modify aimd_view h c (λ s. nn_cong_aimd_tick double s dt_sec loss_frac srtt_ns now_ns)

  unfoldable pub nn_ffi_cong_aimd_can_send : Heap F → ℕ → Option Bool
  nn_ffi_cong_aimd_can_send h c = inspect aimd_view h c (nn_cong_aimd_can_send double)

  unfoldable pub nn_ffi_cong_aimd_deduct : Heap F → ℕ → Option (Heap F)
  nn_ffi_cong_aimd_deduct h c = modify aimd_view h c (nn_cong_aimd_deduct double)

  unfoldable pub nn_ffi_cong_aimd_rate : Heap F → ℕ → Option F
  nn_ffi_cong_aimd_rate h c = inspect aimd_view h c (nn_cong_aimd_rate double)

  unfoldable pub nn_ffi_cong_cwnd_size : ℕ
  nn_ffi_cong_cwnd_size = size_of cwnd_kind

  unfoldable pub nn_ffi_cong_cwnd_init : Heap F → ℕ → ℕ → Option (Heap F)
  nn_ffi_cong_cwnd_init h c mss = install size_of cwnd_view h c (nn_cong_cwnd_init double mss)

  unfoldable pub nn_ffi_cong_cwnd_on_ack : Heap F → ℕ → ℤ → Option (Heap F)
  nn_ffi_cong_cwnd_on_ack h c acked_bytes =
      modify cwnd_view h c (λ s. nn_cong_cwnd_on_ack double s acked_bytes)

  unfoldable pub nn_ffi_cong_cwnd_on_loss : Heap F → ℕ → ℕ → ℤ → Option (Heap F)
  nn_ffi_cong_cwnd_on_loss h c loss_seq now_ns =
      modify cwnd_view h c (λ s. nn_cong_cwnd_on_loss double s loss_seq now_ns)

  unfoldable pub nn_ffi_cong_cwnd_can_send : Heap F → ℕ → ℤ → Option Bool
  nn_ffi_cong_cwnd_can_send h c pkt_size =
      inspect cwnd_view h c (λ s. nn_cong_cwnd_can_send double s pkt_size)

  unfoldable pub nn_ffi_cong_cwnd_on_send : Heap F → ℕ → ℤ → ℤ → Option (Heap F)
  nn_ffi_cong_cwnd_on_send h c pkt_size now_ns =
      modify cwnd_view h c (λ s. nn_cong_cwnd_on_send double s pkt_size now_ns)

  unfoldable pub nn_ffi_cong_cwnd_pacing_ns : Heap F → ℕ → Option ℤ
  nn_ffi_cong_cwnd_pacing_ns h c = inspect cwnd_view h c (nn_cong_cwnd_pacing_ns double)

  unfoldable pub nn_ffi_cong_cwnd_check_idle : Heap F → ℕ → ℤ → ℤ → Option (Heap F)
  nn_ffi_cong_cwnd_check_idle h c now_ns rto_ns =
      modify cwnd_view h c (λ s. nn_cong_cwnd_check_idle double s now_ns rto_ns)

  unfoldable pub nn_ffi_cong_cwnd_on_ack_seq : Heap F → ℕ → ℕ → ℤ → Option (Heap F)
  nn_ffi_cong_cwnd_on_ack_seq h c acked_seq acked_bytes =
      modify cwnd_view h c (λ s. nn_cong_cwnd_on_ack_seq double s acked_seq acked_bytes)

  unfoldable pub nn_ffi_cong_cwnd_set_srtt : Heap F → ℕ → ℤ → Option (Heap F)
  nn_ffi_cong_cwnd_set_srtt h c srtt_ns = modify cwnd_view h c (λ s. record s { srtt_ns = srtt_ns })
