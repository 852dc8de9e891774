-- ===== src/AckProcess.antt =====
-- cbits/nn_ack_process.c: one received acknowledgement against the sent buffer and the loss window.
pub mod Walk
pub mod Effect
pub mod Retransmit
pub mod Samples
pub mod Tests
use nova_net.Prelude.{
  ℕ, zero, suc, ◌+◌, ◌-◌, ◌^◌, ◌/◌, ◌%◌, bit_and, Bool, true, false, not, Option, none, some, leb,
  ltb, ◌==◌, if◌then◌else◌, u8, u16, u64, u32, ◌<<<◌,
}
use nova_net.Prelude.Int.{ℤ, pos, negsuc}
use nova_net.SentBuf.{
  SentRecord, SentBuf, nn_sent_buf_lookup, nn_sent_buf_lookup_mut, nn_sent_buf_delete,
}
use nova_net.LossWindow.{LossWindow, nn_loss_window_record}

-- `NN_ACK_BITFIELD_BITS` and `NN_FAST_RETRANSMIT_THRESHOLD`
abbrev pub ack_bitfield_bits : ℕ
ack_bitfield_bits = 32

abbrev pub fast_retransmit_threshold : ℕ
fast_retransmit_threshold = 3

-- The counts are `int32_t`; `acked_bytes` is kept as the bit pattern of an `int32_t`.
pub record AckResult : Type 0 where
  pub acked_count : ℕ
  pub acked_bytes : ℕ
  pub rtt_sample_ns : ℤ
  pub lost_count : ℕ
  pub fast_retransmit : ℕ
  pub retransmit_seq : ℕ

-- All that the function changes: `*sent`, `*lw` and `*result`.
pub record AckRun : Type 0 where
  pub sent : SentBuf
  pub lw : LossWindow
  pub result : AckResult

-- The cast of a 64-bit pattern to `int64_t`.
abbrev pub to_i64 : ℕ → ℤ
to_i64 w = if ltb w (2 ^ 63) then pos w else negsuc (2 ^ 64 - w - 1)

-- The zeroed result, with `NN_ACK_NO_RTT_SAMPLE`.
abbrev pub no_result : AckResult
no_result = record {
  acked_count = 0;
  acked_bytes = 0;
  rtt_sample_ns = negsuc 0;
  lost_count = 0;
  fast_retransmit = 0;
  retransmit_seq = 0;
}

-- What an acknowledged entry does: it is counted, sampled as a success and deleted.
pub acknowledge : AckRun → ℕ → SentRecord → AckRun
acknowledge run seq rec =
    let r = run.result in
    record {
      sent = (nn_sent_buf_delete run.sent seq).0;
      lw = nn_loss_window_record run.lw false;
      result = record r {
        acked_count = r.acked_count + 1;
        acked_bytes = u32 (r.acked_bytes + rec.size);
      };
    }

-- The direct acknowledgement of `ack_seq`, the only one that gives an RTT sample.
pub direct_ack : AckRun → ℕ → ℕ → AckRun
direct_ack run ack_seq now_ns = elim (nn_sent_buf_lookup run.sent ack_seq) [
  | none ↦ run
  | some rec ↦
      acknowledge
        (let r = run.result in
          record run {
            result = record r { rtt_sample_ns = to_i64 (u64 (now_ns + 2 ^ 64 - rec.send_time_ns)) };
          })
        ack_seq rec
]

-- `entry->nack_count++` of a `uint8_t`.
pub bump_nack : SentRecord → SentRecord
bump_nack rec = record rec { nack_count = u8 (rec.nack_count + 1) }

-- What a gap in the field does to an entry that is still in flight.
pub mark_lost : AckRun → ℕ → SentRecord → AckRun
mark_lost run seq rec =
    let r = run.result in
    let due = leb fast_retransmit_threshold (bump_nack rec).nack_count in
    record {
      sent = nn_sent_buf_lookup_mut run.sent seq bump_nack;
      lw = nn_loss_window_record run.lw true;
      result = record r {
        lost_count = r.lost_count + 1;
        fast_retransmit = if due then 1 else r.fast_retransmit;
        retransmit_seq = if due then seq else r.retransmit_seq;
      };
    }

-- One round of the walk: the number `seq` with its digit of the field.
pub walk_step : AckRun → ℕ → Bool → AckRun
walk_step run seq received = elim (nn_sent_buf_lookup run.sent seq) [
  | none ↦ run
  | some rec ↦ if received then acknowledge run seq rec else mark_lost run seq rec
]

-- `(uint16_t)(ack_seq - 1 - i)` and `ack_bitfield & (1u << i)`
abbrev pub walk_seq : ℕ → ℕ → ℕ
walk_seq ack_seq i = u16 (ack_seq + 2 ^ 16 - 1 - i)

abbrev pub walk_bit : ℕ → ℕ → Bool
walk_bit ack_bitfield i = not (bit_and ack_bitfield (u32 (1 <<< i)) == 0)

-- The loop from digit `i` on, with `rounds` rounds left.
pub walk : ℕ → ℕ → ℕ → ℕ → AckRun → AckRun
walk ack_seq ack_bitfield zero i run = run
walk ack_seq ack_bitfield (suc rounds) i run =
    walk ack_seq ack_bitfield rounds (i + 1)
      (walk_step run (walk_seq ack_seq i) (walk_bit ack_bitfield i))

pub nn_ack_process : SentBuf → LossWindow → ℕ → ℕ → ℕ → AckRun
nn_ack_process sent lw ack_seq ack_bitfield now_ns =
    walk ack_seq ack_bitfield ack_bitfield_bits 0
      (direct_ack (record { sent = sent; lw = lw; result = no_result }) ack_seq now_ns)
