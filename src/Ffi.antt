-- ===== src/Ffi.antt =====
-- cbits/nn_ffi.c: the entry points that Haskell calls, with handles in place of structs. This file has
-- the memory behind the handles; the child modules hold the entry points and what is proved of them.
pub mod Objects
pub mod Scalars
pub mod Calls
pub mod Views
pub mod Access
pub mod Shape
pub mod Typing
pub mod Good
pub mod Valid
pub mod Headers
pub mod Tests
use mathlib.Core.Option
use nova_net.Prelude.{ℕ, ◌≡◌, refl, ap, Option, none, some, leb, ◌==◌, if◌then◌else◌}
use nova_net.RecvBuf.{RecvBuf}
use nova_net.Rtt.{Rtt}
use nova_net.SentBuf.{SentBuf}
use nova_net.LossWindow.{LossWindow}
use nova_net.Bandwidth.{Bandwidth}
use nova_net.Congestion.Aimd.{CongAimd}
use nova_net.Congestion.Cwnd.{CongCwnd}

-- The structs that a `void *` of these calls can point to.
pub data Kind : Type 0 where
  bandwidth_kind recv_buf_kind rtt_kind sent_buf_kind loss_window_kind aimd_kind cwnd_kind : Kind

pub data Object (F : Type 0) : Type 0 where
  of_bandwidth : Bandwidth F → Object F
  of_recv_buf : RecvBuf → Object F
  of_rtt : Rtt → Object F
  of_sent_buf : SentBuf → Object F
  of_loss_window : LossWindow → Object F
  of_aimd : CongAimd F → Object F
  of_cwnd : CongCwnd F → Object F

abbrev pub kind_of : {F : Type 0} → Object F → Kind
kind_of (of_bandwidth s) = bandwidth_kind
kind_of (of_recv_buf s) = recv_buf_kind
kind_of (of_rtt s) = rtt_kind
kind_of (of_sent_buf s) = sent_buf_kind
kind_of (of_loss_window s) = loss_window_kind
kind_of (of_aimd s) = aimd_kind
kind_of (of_cwnd s) = cwnd_kind

-- An allocated block: its size in bytes, and the object in it once it is initialised. A handle that is
-- not allocated is a block of size 0.
pub record Block (F : Type 0) : Type 0 where
  pub bytes : ℕ
  pub object : Option (Object F)

abbrev pub Heap : Type 0 → Type 0
Heap F = ℕ → Block F

-- The cast of a `void *` to a struct: which object is meant, and how the struct is read out of it.
pub record View (F S : Type 0) : Type 0 where
  pub kind : Kind
  pub wrap : S → Object F
  pub unwrap : Object F → Option S
  pub kind-wrap : (s : S) → kind_of (wrap s) ≡ kind
  pub unwrap-wrap : (s : S) → unwrap (wrap s) ≡ some s
  pub wrap-unwrap : (o : Object F) (s : S) → unwrap o ≡ some s → o ≡ wrap s
  pub unwrap_kind : (o : Object F) → kind_of o ≡ kind → (s : S) × (unwrap o ≡ some s)

pub put : {F : Type 0} → Heap F → ℕ → Object F → Heap F
put h p o q = if p == q then record { bytes = (h p).bytes; object = some o } else h q

pub fetch : {F S : Type 0} → View F S → Heap F → ℕ → Option S
fetch view h p = Option.bind (h p).object view.unwrap

-- A call on a struct that is there: `none` is a fault, a handle without such a struct.
pub modify : {F S : Type 0} → View F S → Heap F → ℕ → (S → S) → Option (Heap F)
modify view h p f = Option.map (λ s. put h p (view.wrap (f s))) (fetch view h p)

pub inspect : {F S A : Type 0} → View F S → Heap F → ℕ → (S → A) → Option A
inspect view h p f = Option.map f (fetch view h p)

-- The first write of a struct into a block: a fault when the block is too small.
pub install : {F S : Type 0} → (Kind → ℕ) → View F S → Heap F → ℕ → S → Option (Heap F)
install size_of view h p s =
    if leb (size_of view.kind) (h p).bytes then some (put h p (view.wrap s)) else none
