-- ===== src/AckProcess/Effect.antt =====
-- The whole of `nn_ack_process`: entry by entry, its counters, its RTT sample and the signal for a
-- fast retransmit.
use nova_net.Prelude.{
  ℕ, zero, suc, ◌+◌, ◌-◌, ◌^◌, ◌<◌, ◌≡◌, refl, ◌∙◌, Bool, none, some, arith, ◌==◌, leb,
  if◌then◌else◌, u64,
}
use nova_net.Prelude.Int.{ℤ, negsuc}
use nova_net.Seq.Order.{behind}
use nova_net.SentBuf.{SentBuf, nn_sent_buf_lookup}
use nova_net.SentBuf.Lookup.{IsSized, lookup-delete}
use nova_net.SentBuf.Count.{IsValid, count-delete, count-mut, exists-lookup}
use nova_net.LossWindow.{LossWindow}
use nova_net.AckProcess.{
  AckRun, no_result, acknowledge, mark_lost, bump_nack, walk_step, walk, walk_seq, walk_bit,
  direct_ack, nn_ack_process, to_i64, ack_bitfield_bits,
}
use nova_net.AckProcess.Walk.{
  walk_step-IsValid, direct_ack-IsValid, walk-IsValid, after_step, lookup-walk,
}

pub lookup-direct_ack :
    (run : AckRun) (a now t : ℕ)
    → IsSized run.sent
    → nn_sent_buf_lookup (direct_ack run a now).sent t
      ≡ (if a == t then none else nn_sent_buf_lookup run.sent t)
unfolding direct_ack acknowledge
lookup-direct_ack run a now t v = ground (arith, lookup-delete run.sent a t v)

-- The entry of every 16-bit number after an acknowledgement of a 16-bit number, in a valid sent
-- buffer: `ack_seq` and the numbers whose digit is set are gone, an entry in a gap of the field
-- has one more nack, modulo 256 as the count is a byte, and is else as it was, and all other entries
-- are unchanged.
pub lookup-ack_process :
    (sent : SentBuf) (lw : LossWindow) (a f now t : ℕ)
    → IsValid sent
    → a < 2 ^ 16
    → t < 2 ^ 16
    → nn_sent_buf_lookup (nn_ack_process sent lw a f now).sent t ≡ (
        let k = behind t a in
        if k == 0
        then none
        else if leb k ack_bitfield_bits
        then after_step (walk_bit f (k - 1)) (nn_sent_buf_lookup sent t)
        else nn_sent_buf_lookup sent t)
unfolding nn_ack_process
lookup-ack_process sent lw a f now t v p q =
    let run : AckRun = record { sent = sent; lw = lw; result = no_result } in
    lookup-walk a f 32 0 (direct_ack run a now) t (direct_ack-IsValid run a now v) p q (omega arith)
    ∙ rw (lookup-direct_ack run a now t v.sized) (ground arith)

-- What a part of the run does to the two counts.
abbrev Conserves : AckRun → AckRun → Type 0
Conserves run run' =
    run'.sent.count + run'.result.acked_count ≡ run.sent.count + run.result.acked_count

Conserves-walk_step :
    (run : AckRun) (s : ℕ) (b : Bool) → IsValid run.sent → Conserves run (walk_step run s b)
unfolding walk_step acknowledge mark_lost
Conserves-walk_step run s b v =
    ground (arith, (count-delete s v).1, exists-lookup run.sent s, count-mut run.sent s bump_nack)

Conserves-direct_ack :
    (run : AckRun) (a now : ℕ) → IsValid run.sent → Conserves run (direct_ack run a now)
unfolding direct_ack acknowledge
Conserves-direct_ack run a now v = ground (arith, (count-delete a v).1, exists-lookup run.sent a)

Conserves-walk :
    (a f rounds i : ℕ) (run : AckRun) → IsValid run.sent → Conserves run (walk a f rounds i run)
unfolding walk
Conserves-walk a f zero i run v = refl
Conserves-walk a f (suc rounds) i run v =
    Conserves-walk a f rounds (i + 1) (walk_step run (walk_seq a i) (walk_bit f i))
      (walk_step-IsValid run (walk_seq a i) (walk_bit f i) v)
    ∙ Conserves-walk_step run (walk_seq a i) (walk_bit f i) v

-- Every acknowledgement keeps a valid sent buffer valid, and the number of packets in flight falls
-- by exactly the number reported as acknowledged: none is lost from view or counted twice.
pub ack_process-conserves :
    (sent : SentBuf) (lw : LossWindow) (a f now : ℕ)
    → IsValid sent
    → let run = nn_ack_process sent lw a f now in
      IsValid run.sent × (run.sent.count + run.result.acked_count ≡ sent.count)
unfolding nn_ack_process
ack_process-conserves sent lw a f now v =
    let run : AckRun = record { sent = sent; lw = lw; result = no_result } in
    let first = direct_ack-IsValid run a now v in
    (
      walk-IsValid a f 32 0 (direct_ack run a now) first,
      omega (
        arith,
        Conserves-walk a f 32 0 (direct_ack run a now) first,
        Conserves-direct_ack run a now v,
      ),
    )

rtt-walk_step :
    (run : AckRun) (s : ℕ) (b : Bool)
    → (walk_step run s b).result.rtt_sample_ns ≡ run.result.rtt_sample_ns
unfolding walk_step acknowledge mark_lost
rtt-walk_step run s b = ground arith

rtt-walk :
    (a f rounds i : ℕ) (run : AckRun)
    → (walk a f rounds i run).result.rtt_sample_ns ≡ run.result.rtt_sample_ns
unfolding walk
rtt-walk a f zero i run = refl
rtt-walk a f (suc rounds) i run =
    rtt-walk a f rounds (i + 1) (walk_step run (walk_seq a i) (walk_bit f i))
    ∙ rtt-walk_step run (walk_seq a i) (walk_bit f i)

-- The RTT sample is the age of the entry of `ack_seq`, and -1 if there is none: no digit of the
-- field gives a sample.
pub rtt-ack_process :
    (sent : SentBuf) (lw : LossWindow) (a f now : ℕ)
    → (nn_ack_process sent lw a f now).result.rtt_sample_ns
      ≡ elim (nn_sent_buf_lookup sent a) as (λ _. ℤ) [
        | none ↦ negsuc 0
        | some rec ↦ to_i64 (u64 (now + 2 ^ 64 - rec.send_time_ns))
      ]
unfolding nn_ack_process
rtt-ack_process sent lw a f now =
    let run : AckRun = record { sent = sent; lw = lw; result = no_result } in
    rtt-walk a f 32 0 (direct_ack run a now) ∙ first
  where
    first :
        (direct_ack
          (record { sent = sent; lw = lw; result = no_result })
          a
          now).result.rtt_sample_ns
        ≡ elim (nn_sent_buf_lookup sent a) as (λ _. ℤ) [
          | none ↦ negsuc 0
          | some rec ↦ to_i64 (u64 (now + 2 ^ 64 - rec.send_time_ns))
        ]
    first = unfold direct_ack acknowledge in ground arith
