-- ===== src/Ffi/Shape.antt =====
-- The three forms that the entry points have: a struct is written into a block, one struct is changed,
-- or two are.
use mathlib.Core.Option
use mathlib.Core.Path.{fun_ext}
use nova_net.Prelude.{
  ℕ, Bool, true, false, ◌≡◌, refl, sym, subst, Option, none, some, List, [], ◌∷◌,
}
use nova_net.RecvBuf.Lookup
use nova_net.SentBuf.{nn_sent_buf_insert}
use nova_net.SentBuf.Count
use nova_net.AckProcess.{nn_ack_process}
use nova_net.AckProcess.Effect.{ack_process-conserves}
use nova_net.AckProcess.Samples.{ack_process-IsSampled}
use nova_net.LossWindow.Valid.{loss_window_init-IsWindow}
use nova_net.Rtt.Bounds.{rtt_init-IsClamped, rtt_update-IsClamped}
use nova_net.Bandwidth.{Constants}
use nova_net.Bandwidth.Ring.{bandwidth_init-IsRing, bandwidth_record-IsRing}
use nova_net.Congestion.Double.{Double}
use nova_net.Congestion.Aimd.Laws.{init-IsWithin, tick-IsWithin, deduct-IsWithin}
use nova_net.Ffi.{Kind, Heap, View, sent_buf_kind, loss_window_kind, put, fetch, modify, install}
use nova_net.Ffi.Views.{
  bandwidth_view, recv_buf_view, rtt_view, sent_buf_view, loss_window_view, aimd_view, cwnd_view,
}
use nova_net.Ffi.Objects.{
  sent_record, nn_ffi_bandwidth_init, nn_ffi_bandwidth_record, nn_ffi_recv_buf_init,
  nn_ffi_recv_buf_insert, nn_ffi_rtt_init, nn_ffi_rtt_update, nn_ffi_sent_buf_init,
  nn_ffi_sent_buf_insert, nn_ffi_loss_window_init, nn_ffi_ack_process, nn_ffi_cong_aimd_init,
  nn_ffi_cong_aimd_tick, nn_ffi_cong_aimd_deduct, nn_ffi_cong_cwnd_init, nn_ffi_cong_cwnd_on_ack,
  nn_ffi_cong_cwnd_on_loss, nn_ffi_cong_cwnd_on_send, nn_ffi_cong_cwnd_check_idle,
  nn_ffi_cong_cwnd_on_ack_seq, nn_ffi_cong_cwnd_set_srtt,
}
use nova_net.Ffi.Calls.{
  Call, uses, is_init, run, bandwidth_init, bandwidth_record, recv_buf_init, recv_buf_insert,
  rtt_init, rtt_update, sent_buf_init, sent_buf_insert, loss_window_init, ack_process, aimd_init,
  aimd_tick, aimd_deduct, cwnd_init, cwnd_on_ack, cwnd_on_loss, cwnd_on_send, cwnd_check_idle,
  cwnd_on_ack_seq, cwnd_set_srtt,
}
use nova_net.Congestion.Cwnd.Flight.{
  init-IsFlight, on_ack-IsFlight, on_loss-IsFlight, on_send-IsFlight, check_idle-IsFlight,
  on_ack_seq-IsFlight,
}
use nova_net.Ffi.Good.{IsGood, IsSane}

-- Two structs are read, and both are written.
pub modify_both :
    {F S T : Type 0} → View F S → View F T → Heap F → ℕ → ℕ → (S → T → S × T) → Option (Heap F)
modify_both v w h p q f =
    Option.bind (fetch v h p)
      (λ s. Option.map (λ t. put (put h p (v.wrap (f s t).0)) q (w.wrap (f s t).1)) (fetch w h q))

pub modify_both_read :
    {F S T : Type 0} (v : View F S) (w : View F T) (h : Heap F) (p q : ℕ) (f : S → T → S × T)
    (s : S) (t : T)
    → fetch v h p ≡ some s
    → fetch w h q ≡ some t
    → modify_both v w h p q f ≡ some (put (put h p (v.wrap (f s t).0)) q (w.wrap (f s t).1))
unfolding modify_both Option.bind
modify_both_read v w h p q f s t e e' = rw (e, e') refl

pub modify_both-some :
    {F S T : Type 0} (v : View F S) (w : View F T) (h h' : Heap F) (p q : ℕ) (f : S → T → S × T)
    → modify_both v w h p q f ≡ some h'
    → (s : S) × (t : T) × (fetch v h p ≡ some s)
      × (fetch w h q ≡ some t)
      × (put (put h p (v.wrap (f s t).0)) q (w.wrap (f s t).1) ≡ h')
unfolding modify_both
modify_both-some v w h h' p q f e =
    let (s, read, rest) = (Option.bind-eq-some_iff (fetch v h p) _).0 e in
    let (t, read', same) = (Option.map-eq-some_iff _ (fetch w h q)).0 rest in
    (s, t, read, read', same)

-- What a call does to a heap, with what is kept of the structs where its arguments are sane.
pub data Shape {F : Type 0} (size_of : Kind → ℕ) (sane : Type 0)
    : List (ℕ × Kind) → Bool → (Heap F → Option (Heap F)) → Type 1 where
  installs :
      {S : Type 0} (view : View F S) (p : ℕ) (s : S)
      → IsGood (view.wrap s)
      → Shape size_of sane ((p, view.kind) ∷ []) true (λ h. install size_of view h p s)
  modifies :
      {S : Type 0} (view : View F S) (p : ℕ) (f : S → S)
      → (sane → (s : S) → IsGood (view.wrap s) → IsGood (view.wrap (f s)))
      → Shape size_of sane ((p, view.kind) ∷ []) false (λ h. modify view h p f)
  modifies_both :
      {S T : Type 0} (v : View F S) (w : View F T) (p q : ℕ) (f : S → T → S × T)
      → ((s : S) (t : T)
          → IsGood (v.wrap s)
          → IsGood (w.wrap t)
          → IsGood (v.wrap (f s t).0) × IsGood (w.wrap (f s t).1))
      → Shape size_of sane ((p, v.kind) ∷ (q, w.kind) ∷ []) false (λ h. modify_both v w h p q f)

map-map :
    {A B C : Type 0} (f : A → B) (g : B → C) (o : Option A)
    → Option.map g (Option.map f o) ≡ Option.map (λ a. g (f a)) o
map-map f g none = refl
map-map f g (some a) = refl

map-bind_map :
    {A B C D : Type 0} (f : A → B → C) (g : C → D) (o : Option A) (o' : Option B)
    → Option.map g (Option.bind o (λ a. Option.map (f a) o'))
      ≡ Option.bind o (λ a. Option.map (λ b. g (f a b)) o')
unfolding Option.bind
map-bind_map f g none o' = refl
map-bind_map f g (some a) o' = map-map (f a) g o'

module _ {F : Type 0} (double : Double F) (constants : Constants F) (size_of : Kind → ℕ) where
  insert_shape :
      (h : Heap F) (buf seq channel_id channel_seq send_time_ns size : ℕ)
      → modify sent_buf_view h buf
          (λ b. (nn_sent_buf_insert b seq (sent_record channel_id channel_seq send_time_ns size)).0)
        ≡ Option.map
            (λ r. r.0)
            (nn_ffi_sent_buf_insert double constants size_of h buf seq channel_id channel_seq
              send_time_ns size)
  unfolding nn_ffi_sent_buf_insert modify
  insert_shape h buf seq channel_id channel_seq send_time_ns size =
      sym (map-map _ _ (fetch sent_buf_view h buf))

  ack_shape :
      (h : Heap F) (buf lw ack_seq ack_bitfield now_ns : ℕ)
      → modify_both sent_buf_view loss_window_view h buf lw
          (λ b w. let run = nn_ack_process b w ack_seq ack_bitfield now_ns in (run.sent, run.lw))
        ≡ Option.map
            (λ r. r.0)
            (nn_ffi_ack_process double constants size_of h buf lw ack_seq ack_bitfield now_ns)
  unfolding nn_ffi_ack_process modify_both
  ack_shape h buf lw ack_seq ack_bitfield now_ns =
      sym (map-bind_map _ _ (fetch sent_buf_view h buf) (fetch loss_window_view h lw))

  pub run-Shape :
      (c : Call F) → Shape size_of (IsSane c) (uses c) (is_init c) (run double constants size_of c)
  unfolding run nn_ffi_bandwidth_init nn_ffi_bandwidth_record nn_ffi_recv_buf_init
      nn_ffi_recv_buf_insert nn_ffi_rtt_init nn_ffi_rtt_update nn_ffi_sent_buf_init
      nn_ffi_loss_window_init nn_ffi_cong_aimd_init nn_ffi_cong_aimd_tick nn_ffi_cong_aimd_deduct
      nn_ffi_cong_cwnd_init nn_ffi_cong_cwnd_on_ack nn_ffi_cong_cwnd_on_loss
      nn_ffi_cong_cwnd_on_send nn_ffi_cong_cwnd_check_idle nn_ffi_cong_cwnd_on_ack_seq
      nn_ffi_cong_cwnd_set_srtt
  run-Shape (bandwidth_init bw window_ms) =
      installs bandwidth_view bw _ (bandwidth_init-IsRing double constants window_ms)
  run-Shape (bandwidth_record bw size now_ns) =
      modifies bandwidth_view bw _ (λ _ b. bandwidth_record-IsRing b size now_ns)
  run-Shape (recv_buf_init buf) = installs recv_buf_view buf _ nova_net.RecvBuf.Lookup.init-IsValid
  run-Shape (recv_buf_insert buf seq) =
      modifies recv_buf_view buf _ (λ _ b. nova_net.RecvBuf.Lookup.insert-IsValid seq)
  run-Shape (rtt_init r) = installs rtt_view r _ rtt_init-IsClamped
  run-Shape (rtt_update r sample_ns) =
      modifies rtt_view r _ (λ _ s. rtt_update-IsClamped s sample_ns)
  run-Shape (sent_buf_init buf) = installs sent_buf_view buf _ nova_net.SentBuf.Count.init-IsValid
  run-Shape (sent_buf_insert buf seq channel_id channel_seq send_time_ns size) =
      subst (Shape size_of Unit ((buf, sent_buf_kind) ∷ []) false)
        (fun_ext λ h. insert_shape h buf seq channel_id channel_seq send_time_ns size)
        (modifies sent_buf_view buf _ (λ _ b. nova_net.SentBuf.Count.insert-IsValid seq _))
  run-Shape (loss_window_init lw) = installs loss_window_view lw _ loss_window_init-IsWindow
  run-Shape (ack_process buf lw ack_seq ack_bitfield now_ns) =
      subst (Shape size_of Unit ((buf, sent_buf_kind) ∷ (lw, loss_window_kind) ∷ []) false)
        (fun_ext λ h. ack_shape h buf lw ack_seq ack_bitfield now_ns)
        (modifies_both sent_buf_view loss_window_view buf lw _ (λ b w v u. (
          (ack_process-conserves b w ack_seq ack_bitfield now_ns v).0,
          (ack_process-IsSampled b w ack_seq ack_bitfield now_ns u).window,
        )))
  run-Shape (aimd_init c base_rate loss_threshold rtt_threshold_ns) =
      installs aimd_view c _ (init-IsWithin double base_rate loss_threshold rtt_threshold_ns)
  run-Shape (aimd_tick c dt_sec loss_frac srtt_ns now_ns) = modifies aimd_view c _ (λ _ s.
      tick-IsWithin double s
        (record { dt_sec = dt_sec; loss_frac = loss_frac; srtt_ns = srtt_ns; now_ns = now_ns }))
  run-Shape (aimd_deduct c) = modifies aimd_view c _ (λ _. deduct-IsWithin double)
  run-Shape (cwnd_init c mss) = installs cwnd_view c _ (init-IsFlight double mss)
  run-Shape (cwnd_on_ack c acked_bytes) =
      modifies cwnd_view c _ (λ _ s. on_ack-IsFlight double s acked_bytes)
  run-Shape (cwnd_on_loss c loss_seq now_ns) =
      modifies cwnd_view c _ (λ _ s. on_loss-IsFlight double s loss_seq now_ns)
  run-Shape (cwnd_on_send c pkt_size now_ns) =
      modifies cwnd_view c _ (λ h s. on_send-IsFlight double s pkt_size now_ns h)
  run-Shape (cwnd_check_idle c now_ns rto_ns) =
      modifies cwnd_view c _ (λ _ s. check_idle-IsFlight double s now_ns rto_ns)
  run-Shape (cwnd_on_ack_seq c acked_seq acked_bytes) =
      modifies cwnd_view c _ (λ _ s v. on_ack_seq-IsFlight double s acked_seq acked_bytes)
  run-Shape (cwnd_set_srtt c srtt_ns) = modifies cwnd_view c _ (λ _ s v. v)
