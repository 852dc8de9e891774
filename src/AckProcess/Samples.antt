-- ===== src/AckProcess/Samples.antt =====
-- The samples that an acknowledgement leaves in the loss window.
use nova_net.Prelude.{
  ℕ, zero, suc, ◌+◌, ◌%◌, ◌^◌, ◌≡◌, Bool, true, false, inl, inr, Option-cases, arith,
}
use nova_net.SentBuf.{SentRecord, SentBuf, nn_sent_buf_lookup}
use nova_net.LossWindow.{LossWindow}
use nova_net.LossWindow.Valid.{IsWindow, loss_window_record-IsWindow, loss_window_record-index}
use nova_net.AckProcess.{
  AckRun, no_result, acknowledge, direct_ack, mark_lost, walk_step, walk_seq, walk_bit, walk,
  nn_ack_process, ack_bitfield_bits,
}

-- The window of a run that began at `lw`: a sample for each packet acknowledged or lost.
pub record IsSampled (lw : LossWindow) (run : AckRun) : Type 0 where
  pub window : IsWindow run.lw
  pub moved :
      run.lw.index % 2 ^ 32 ≡ (lw.index + run.result.acked_count + run.result.lost_count) % 2 ^ 32

acknowledge-IsSampled :
    (lw : LossWindow) (run : AckRun) (seq : ℕ) (rec : SentRecord)
    → IsSampled lw run
    → IsSampled lw (acknowledge run seq rec)
unfolding acknowledge
acknowledge-IsSampled lw run seq rec v = record {
  window = loss_window_record-IsWindow run.lw false v.window;
  moved = omega (arith, v.moved, loss_window_record-index run.lw false);
}

mark_lost-IsSampled :
    (lw : LossWindow) (run : AckRun) (seq : ℕ) (rec : SentRecord)
    → IsSampled lw run
    → IsSampled lw (mark_lost run seq rec)
unfolding mark_lost
mark_lost-IsSampled lw run seq rec v = record {
  window = loss_window_record-IsWindow run.lw true v.window;
  moved = omega (arith, v.moved, loss_window_record-index run.lw true);
}

direct_ack-IsSampled :
    (lw : LossWindow) (run : AckRun) (ack_seq now_ns : ℕ)
    → IsSampled lw run
    → IsSampled lw (direct_ack run ack_seq now_ns)
direct_ack-IsSampled lw run ack_seq now_ns v =
    elim (Option-cases (nn_sent_buf_lookup run.sent ack_seq)) [
      | inl e ↦ unfold direct_ack in rw (e, direct_ack) v
      | inr (rec, e) ↦
          unfold direct_ack in
          rw (e, direct_ack)
            (acknowledge-IsSampled lw _ ack_seq rec (record { window = v.window; moved = v.moved }))
    ]

walk_step-IsSampled :
    (lw : LossWindow) (run : AckRun) (seq : ℕ) (received : Bool)
    → IsSampled lw run
    → IsSampled lw (walk_step run seq received)
walk_step-IsSampled lw run seq received v = elim (Option-cases (nn_sent_buf_lookup run.sent seq)) [
  | inl e ↦ unfold walk_step in rw (e, walk_step) v
  | inr (rec, e) ↦ elim received as (λ b. IsSampled lw (walk_step run seq b)) [
    | true ↦ unfold walk_step in rw (e, walk_step) (acknowledge-IsSampled lw run seq rec v)
    | false ↦ unfold walk_step in rw (e, walk_step) (mark_lost-IsSampled lw run seq rec v)
  ]
]

walk-IsSampled :
    (lw : LossWindow) (ack_seq ack_bitfield rounds i : ℕ) (run : AckRun)
    → IsSampled lw run
    → IsSampled lw (walk ack_seq ack_bitfield rounds i run)
unfolding walk
walk-IsSampled lw ack_seq ack_bitfield zero i run v = v
walk-IsSampled lw ack_seq ack_bitfield (suc rounds) i run v =
    walk-IsSampled lw ack_seq ack_bitfield rounds (i + 1) _
      (walk_step-IsSampled lw run (walk_seq ack_seq i) (walk_bit ack_bitfield i) v)

-- An acknowledgement leaves one sample in a well-formed loss window for each packet that it
-- acknowledges and one for each that it finds lost: the place of the next sample moves by their number,
-- modulo 2^32. The window keeps its four words, and a count of at most 256.
pub ack_process-IsSampled :
    (sent : SentBuf) (lw : LossWindow) (ack_seq ack_bitfield now_ns : ℕ)
    → IsWindow lw
    → IsSampled lw (nn_ack_process sent lw ack_seq ack_bitfield now_ns)
unfolding nn_ack_process
ack_process-IsSampled sent lw ack_seq ack_bitfield now_ns v =
    walk-IsSampled lw ack_seq ack_bitfield ack_bitfield_bits 0 _ (
      direct_ack-IsSampled lw (record { sent = sent; lw = lw; result = no_result }) ack_seq now_ns
        (record { window = v; moved = omega arith }))
