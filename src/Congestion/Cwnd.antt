-- ===== src/Congestion/Cwnd.antt =====
-- `nn_cong_cwnd_*`: the congestion window.
use nova_net.Prelude.{ℕ, Bool, true, false, ◌&&◌, ◌||◌, if◌then◌else◌}
use nova_net.Prelude.Int.{ℤ, pos, ◌+ℤ◌, ◌-ℤ◌, ltb_ℤ, leb_ℤ, scale_ℤ}
use nova_net.Seq.{nn_seq_gt}
use nova_net.Congestion.Double.{Double}
pub mod Window
pub mod Flight

-- `NN_CWND_INITIAL_MSS`, `NN_CWND_MIN_MSS`, `NN_CWND_SSTHRESH_DEFAULT` and `NN_CWND_IDLE_RTOS`
abbrev pub initial_mss : ℕ
initial_mss = 10

abbrev pub min_mss : ℕ
min_mss = 2

abbrev pub ssthresh_default : ℕ
ssthresh_default = 65536

abbrev pub idle_rtos : ℕ
idle_rtos = 2

-- `nn_cwnd_phase`
pub data Phase : Type 0 where
  slow_start avoidance recovery : Phase

pub record CongCwnd (F : Type 0) : Type 0 where
  pub phase : Phase
  pub cwnd : F
  pub ssthresh : F
  pub mss : ℕ
  pub in_flight : ℤ
  pub recovery_seq : ℕ
  pub last_send_ns : ℤ
  pub last_activity_ns : ℤ
  pub srtt_ns : ℤ

module _ {F : Type 0} (double : Double F) where
  -- `(double)n * (double)mss`
  abbrev pub segments : ℕ → ℕ → F
  segments n mss = double.mul (double.from_int (pos n)) (double.from_int (pos mss))

  pub nn_cong_cwnd_init : ℕ → CongCwnd F
  nn_cong_cwnd_init mss = record {
    phase = slow_start;
    cwnd = segments initial_mss mss;
    ssthresh = double.from_int (pos ssthresh_default);
    mss = mss;
    in_flight = pos 0;
    recovery_seq = 0;
    last_send_ns = pos 0;
    last_activity_ns = pos 0;
    srtt_ns = pos 0;
  }

  -- The growth in each phase, before the lower limit.
  pub grow : Phase → CongCwnd F → ℤ → CongCwnd F
  grow slow_start c acked_bytes =
      let cwnd = double.add c.cwnd (double.from_int acked_bytes) in
      record c { cwnd = cwnd; phase = if double.le c.ssthresh cwnd then avoidance else slow_start }
  grow avoidance c acked_bytes =
      let step =
        double.div (double.mul (double.from_int (pos c.mss)) (double.from_int acked_bytes))
          c.cwnd in
      record c {
        cwnd =
            if double.lt (double.from_int (pos 0)) c.cwnd then double.add c.cwnd step else c.cwnd;
      }
  grow recovery c acked_bytes = c

  pub at_least : F → F → F
  at_least low x = if double.lt x low then low else x

  pub nn_cong_cwnd_on_ack : CongCwnd F → ℤ → CongCwnd F
  nn_cong_cwnd_on_ack c acked_bytes =
      let grown = grow c.phase c acked_bytes in
      record grown { cwnd = at_least (segments min_mss c.mss) grown.cwnd }

  pub enter_recovery : CongCwnd F → ℕ → ℤ → CongCwnd F
  enter_recovery c loss_seq now_ns =
      let half = at_least (segments min_mss c.mss) (double.div c.cwnd (double.from_int (pos 2))) in
      record c {
        ssthresh = half;
        cwnd = half;
        phase = recovery;
        recovery_seq = loss_seq;
        last_activity_ns = now_ns;
      }

  -- A loss in each phase: one recovery at a time.
  pub lose : Phase → CongCwnd F → ℕ → ℤ → CongCwnd F
  lose slow_start c loss_seq now_ns = enter_recovery c loss_seq now_ns
  lose avoidance c loss_seq now_ns = enter_recovery c loss_seq now_ns
  lose recovery c loss_seq now_ns = c

  pub nn_cong_cwnd_on_loss : CongCwnd F → ℕ → ℤ → CongCwnd F
  nn_cong_cwnd_on_loss c loss_seq now_ns = lose c.phase c loss_seq now_ns

  -- The phase after an acknowledged number.
  pub exit_recovery : Phase → ℕ → ℕ → Phase
  exit_recovery slow_start acked_seq recovery_seq = slow_start
  exit_recovery avoidance acked_seq recovery_seq = avoidance
  exit_recovery recovery acked_seq recovery_seq =
      if nn_seq_gt acked_seq recovery_seq then avoidance else recovery

  pub nn_cong_cwnd_on_ack_seq : CongCwnd F → ℕ → ℤ → CongCwnd F
  nn_cong_cwnd_on_ack_seq c acked_seq acked_bytes =
      let left = c.in_flight -ℤ acked_bytes in
      record c {
        in_flight = if ltb_ℤ left (pos 0) then pos 0 else left;
        phase = exit_recovery c.phase acked_seq c.recovery_seq;
      }

  pub nn_cong_cwnd_pacing_ns : CongCwnd F → ℤ
  nn_cong_cwnd_pacing_ns c =
      let packets_in_window = double.div c.cwnd (double.from_int (pos c.mss)) in
      if double.le c.cwnd (double.from_int (pos c.mss)) || leb_ℤ c.srtt_ns (pos 0)
      then pos 0
      else double.to_int (double.div (double.from_int c.srtt_ns) packets_in_window)

  pub nn_cong_cwnd_check_idle : CongCwnd F → ℤ → ℤ → CongCwnd F
  nn_cong_cwnd_check_idle c now_ns rto_ns =
      let idle_threshold = scale_ℤ idle_rtos rto_ns in
      if leb_ℤ idle_threshold (pos 0)
      then c
      else if leb_ℤ idle_threshold (now_ns -ℤ c.last_activity_ns)
      then record c {
        phase = slow_start;
        cwnd = segments initial_mss c.mss;
        ssthresh = double.from_int (pos ssthresh_default);
      }
      else c

  pub nn_cong_cwnd_can_send : CongCwnd F → ℤ → Bool
  nn_cong_cwnd_can_send c pkt_size = leb_ℤ (c.in_flight +ℤ pkt_size) (double.to_int c.cwnd)

  pub nn_cong_cwnd_on_send : CongCwnd F → ℤ → ℤ → CongCwnd F
  nn_cong_cwnd_on_send c pkt_size now_ns = record c {
    in_flight = c.in_flight +ℤ pkt_size;
    last_send_ns = now_ns;
    last_activity_ns = now_ns;
  }
