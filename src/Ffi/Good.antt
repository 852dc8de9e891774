-- ===== src/Ffi/Good.antt =====
-- What each struct keeps, whatever calls are made on it.
use nova_net.RecvBuf.Lookup
use nova_net.SentBuf.Count
use nova_net.LossWindow.Valid.{IsWindow}
use nova_net.Rtt.Bounds.{IsClamped}
use nova_net.Bandwidth.Ring.{IsRing}
use nova_net.Congestion.Aimd.Laws.{IsWithin}
use nova_net.Prelude.Int.{pos, ◌≤ℤ◌}
use nova_net.Congestion.Cwnd.Flight.{IsFlight}
use nova_net.Ffi.Calls.{Call, cwnd_on_send}
use nova_net.Ffi.{
  Object, of_bandwidth, of_recv_buf, of_rtt, of_sent_buf, of_loss_window, of_aimd, of_cwnd,
}

abbrev pub IsGood : {F : Type 0} → Object F → Type 0
IsGood (of_bandwidth b) = IsRing b
IsGood (of_recv_buf b) = nova_net.RecvBuf.Lookup.IsValid b
IsGood (of_rtt r) = IsClamped r
IsGood (of_sent_buf b) = nova_net.SentBuf.Count.IsValid b
IsGood (of_loss_window lw) = IsWindow lw
IsGood (of_aimd c) = IsWithin c.recovery_time_ns
IsGood (of_cwnd c) = IsFlight c

-- A call that reports a sent packet gives a size that is not negative.
abbrev pub IsSane : {F : Type 0} → Call F → Type 0
IsSane (cwnd_on_send c pkt_size now_ns) = pos 0 ≤ℤ pkt_size
IsSane c = Unit
