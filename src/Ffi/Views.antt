-- ===== src/Ffi/Views.antt =====
-- The casts of cbits/nn_ffi.c, one for each struct.
use nova_net.Prelude.{◌≡◌, refl, Option, none, some}
use nova_net.Bandwidth.{Bandwidth}
use nova_net.RecvBuf.{RecvBuf}
use nova_net.Rtt.{Rtt}
use nova_net.SentBuf.{SentBuf}
use nova_net.LossWindow.{LossWindow}
use nova_net.Congestion.Aimd.{CongAimd}
use nova_net.Congestion.Cwnd.{CongCwnd}
use nova_net.Ffi.{
  Object, View, kind_of, bandwidth_kind, recv_buf_kind, rtt_kind, sent_buf_kind, loss_window_kind,
  aimd_kind, cwnd_kind, of_bandwidth, of_recv_buf, of_rtt, of_sent_buf, of_loss_window, of_aimd,
  of_cwnd,
}

abbrev pub as_bandwidth : {F : Type 0} → Object F → Option (Bandwidth F)
as_bandwidth (of_bandwidth s) = some s
as_bandwidth o = none

pub wrap-as_bandwidth :
    {F : Type 0} (o : Object F) (s : Bandwidth F) → as_bandwidth o ≡ some s → o ≡ of_bandwidth s
wrap-as_bandwidth (of_bandwidth s') s e = cc
wrap-as_bandwidth o s e = cc

pub as_bandwidth_total :
    {F : Type 0} (o : Object F)
    → kind_of o ≡ bandwidth_kind
    → (s : Bandwidth F) × (as_bandwidth o ≡ some s)
as_bandwidth_total (of_bandwidth s') e = (s', refl)
as_bandwidth_total o e = absurd cc

abbrev pub bandwidth_view : {F : Type 0} → View F (Bandwidth F)
bandwidth_view = record {
  kind = bandwidth_kind;
  wrap = of_bandwidth;
  unwrap = as_bandwidth;
  kind-wrap = λ s. refl;
  unwrap-wrap = λ s. refl;
  wrap-unwrap = wrap-as_bandwidth;
  unwrap_kind = as_bandwidth_total;
}

abbrev pub as_recv_buf : {F : Type 0} → Object F → Option (RecvBuf)
as_recv_buf (of_recv_buf s) = some s
as_recv_buf o = none

pub wrap-as_recv_buf :
    {F : Type 0} (o : Object F) (s : RecvBuf) → as_recv_buf o ≡ some s → o ≡ of_recv_buf s
wrap-as_recv_buf (of_recv_buf s') s e = cc
wrap-as_recv_buf o s e = cc

pub as_recv_buf_total :
    {F : Type 0} (o : Object F)
    → kind_of o ≡ recv_buf_kind
    → (s : RecvBuf) × (as_recv_buf o ≡ some s)
as_recv_buf_total (of_recv_buf s') e = (s', refl)
as_recv_buf_total o e = absurd cc

abbrev pub recv_buf_view : {F : Type 0} → View F (RecvBuf)
recv_buf_view = record {
  kind = recv_buf_kind;
  wrap = of_recv_buf;
  unwrap = as_recv_buf;
  kind-wrap = λ s. refl;
  unwrap-wrap = λ s. refl;
  wrap-unwrap = wrap-as_recv_buf;
  unwrap_kind = as_recv_buf_total;
}

abbrev pub as_rtt : {F : Type 0} → Object F → Option (Rtt)
as_rtt (of_rtt s) = some s
as_rtt o = none

pub wrap-as_rtt : {F : Type 0} (o : Object F) (s : Rtt) → as_rtt o ≡ some s → o ≡ of_rtt s
wrap-as_rtt (of_rtt s') s e = cc
wrap-as_rtt o s e = cc

pub as_rtt_total :
    {F : Type 0} (o : Object F) → kind_of o ≡ rtt_kind → (s : Rtt) × (as_rtt o ≡ some s)
as_rtt_total (of_rtt s') e = (s', refl)
as_rtt_total o e = absurd cc

abbrev pub rtt_view : {F : Type 0} → View F (Rtt)
rtt_view = record {
  kind = rtt_kind;
  wrap = of_rtt;
  unwrap = as_rtt;
  kind-wrap = λ s. refl;
  unwrap-wrap = λ s. refl;
  wrap-unwrap = wrap-as_rtt;
  unwrap_kind = as_rtt_total;
}

abbrev pub as_sent_buf : {F : Type 0} → Object F → Option (SentBuf)
as_sent_buf (of_sent_buf s) = some s
as_sent_buf o = none

pub wrap-as_sent_buf :
    {F : Type 0} (o : Object F) (s : SentBuf) → as_sent_buf o ≡ some s → o ≡ of_sent_buf s
wrap-as_sent_buf (of_sent_buf s') s e = cc
wrap-as_sent_buf o s e = cc

pub as_sent_buf_total :
    {F : Type 0} (o : Object F)
    → kind_of o ≡ sent_buf_kind
    → (s : SentBuf) × (as_sent_buf o ≡ some s)
as_sent_buf_total (of_sent_buf s') e = (s', refl)
as_sent_buf_total o e = absurd cc

abbrev pub sent_buf_view : {F : Type 0} → View F (SentBuf)
sent_buf_view = record {
  kind = sent_buf_kind;
  wrap = of_sent_buf;
  unwrap = as_sent_buf;
  kind-wrap = λ s. refl;
  unwrap-wrap = λ s. refl;
  wrap-unwrap = wrap-as_sent_buf;
  unwrap_kind = as_sent_buf_total;
}

abbrev pub as_loss_window : {F : Type 0} → Object F → Option (LossWindow)
as_loss_window (of_loss_window s) = some s
as_loss_window o = none

pub wrap-as_loss_window :
    {F : Type 0} (o : Object F) (s : LossWindow) → as_loss_window o ≡ some s → o ≡ of_loss_window s
wrap-as_loss_window (of_loss_window s') s e = cc
wrap-as_loss_window o s e = cc

pub as_loss_window_total :
    {F : Type 0} (o : Object F)
    → kind_of o ≡ loss_window_kind
    → (s : LossWindow) × (as_loss_window o ≡ some s)
as_loss_window_total (of_loss_window s') e = (s', refl)
as_loss_window_total o e = absurd cc

abbrev pub loss_window_view : {F : Type 0} → View F (LossWindow)
loss_window_view = record {
  kind = loss_window_kind;
  wrap = of_loss_window;
  unwrap = as_loss_window;
  kind-wrap = λ s. refl;
  unwrap-wrap = λ s. refl;
  wrap-unwrap = wrap-as_loss_window;
  unwrap_kind = as_loss_window_total;
}

abbrev pub as_aimd : {F : Type 0} → Object F → Option (CongAimd F)
as_aimd (of_aimd s) = some s
as_aimd o = none

pub wrap-as_aimd : {F : Type 0} (o : Object F) (s : CongAimd F) → as_aimd o ≡ some s → o ≡ of_aimd s
wrap-as_aimd (of_aimd s') s e = cc
wrap-as_aimd o s e = cc

pub as_aimd_total :
    {F : Type 0} (o : Object F) → kind_of o ≡ aimd_kind → (s : CongAimd F) × (as_aimd o ≡ some s)
as_aimd_total (of_aimd s') e = (s', refl)
as_aimd_total o e = absurd cc

abbrev pub aimd_view : {F : Type 0} → View F (CongAimd F)
aimd_view = record {
  kind = aimd_kind;
  wrap = of_aimd;
  unwrap = as_aimd;
  kind-wrap = λ s. refl;
  unwrap-wrap = λ s. refl;
  wrap-unwrap = wrap-as_aimd;
  unwrap_kind = as_aimd_total;
}

abbrev pub as_cwnd : {F : Type 0} → Object F → Option (CongCwnd F)
as_cwnd (of_cwnd s) = some s
as_cwnd o = none

pub wrap-as_cwnd : {F : Type 0} (o : Object F) (s : CongCwnd F) → as_cwnd o ≡ some s → o ≡ of_cwnd s
wrap-as_cwnd (of_cwnd s') s e = cc
wrap-as_cwnd o s e = cc

pub as_cwnd_total :
    {F : Type 0} (o : Object F) → kind_of o ≡ cwnd_kind → (s : CongCwnd F) × (as_cwnd o ≡ some s)
as_cwnd_total (of_cwnd s') e = (s', refl)
as_cwnd_total o e = absurd cc

abbrev pub cwnd_view : {F : Type 0} → View F (CongCwnd F)
cwnd_view = record {
  kind = cwnd_kind;
  wrap = of_cwnd;
  unwrap = as_cwnd;
  kind-wrap = λ s. refl;
  unwrap-wrap = λ s. refl;
  wrap-unwrap = wrap-as_cwnd;
  unwrap_kind = as_cwnd_total;
}
