-- ===== src/AckProcess/Tests.antt =====
-- Four packets in flight, acknowledged with two gaps.
use nova_net.Prelude.{ℕ, ◌+◌, ◌≡◌, refl, arith, [], ◌∷◌}
use nova_net.SentBuf.{SentRecord, SentBuf, nn_sent_buf_init, nn_sent_buf_insert, nn_sent_buf_lookup}
use nova_net.SentBuf.Count.{IsValid, init-IsValid, insert-IsValid}
use nova_net.LossWindow.{LossWindow}
use nova_net.AckProcess.{nn_ack_process, ack_bitfield_bits, walk_bit}
use nova_net.AckProcess.Walk.{after_step}
use nova_net.AckProcess.Effect.{lookup-ack_process, ack_process-conserves}
use nova_net.AckProcess.Samples.{IsSampled, ack_process-IsSampled}
use nova_net.AckProcess.Retransmit.{Signals, ack_process-Signals}

abbrev packet : ℕ → SentRecord
packet nacks = record {
  channel_id = 1;
  channel_seq = 7;
  send_time_ns = 5000;
  size = 100;
  nack_count = nacks;
  occupied = 0;
}

abbrev put : SentBuf → ℕ → ℕ → SentBuf
put b s nacks = (nn_sent_buf_insert b s (packet nacks)).0

-- 65535 has two nacks; 0, 1 and 2 were sent later.
abbrev flight : SentBuf
flight = put (put (put (put nn_sent_buf_init 65535 2) 0 0) 1 0) 2 0

flight-IsValid : IsValid flight
flight-IsValid = insert-IsValid 2 (packet 0) (
    insert-IsValid 1 (packet 0)
      (insert-IsValid 0 (packet 0) (insert-IsValid 65535 (packet 2) init-IsValid)))

abbrev window : LossWindow
window = record { bits = 0 ∷ 0 ∷ 0 ∷ 0 ∷ []; index = 0; count = 0 }

-- 2 and 0 are acknowledged; 65535 is a gap.
lookup-ack_process_example :
    nn_sent_buf_lookup (nn_ack_process flight window 2 2 9000).sent 65535
    ≡ after_step (walk_bit 2 2) (nn_sent_buf_lookup flight 65535)
lookup-ack_process_example =
    lookup-ack_process flight window 2 2 9000 65535 flight-IsValid (omega arith) (omega arith)

ack_process-conserves_example :
    IsValid (nn_ack_process flight window 2 2 9000).sent
    × ((nn_ack_process flight window 2 2 9000).sent.count
          + (nn_ack_process flight window 2 2 9000).result.acked_count
        ≡ flight.count)
ack_process-conserves_example = ack_process-conserves flight window 2 2 9000 flight-IsValid

ack_process-IsSampled_example : IsSampled window (nn_ack_process flight window 2 2 9000)
ack_process-IsSampled_example =
    ack_process-IsSampled flight window 2 2 9000 (record { words = refl; count_fits = omega arith })

ack_process-Signals_example :
    Signals flight 2 2 ack_bitfield_bits (nn_ack_process flight window 2 2 9000).result
ack_process-Signals_example =
    ack_process-Signals flight window 2 2 9000 flight-IsValid (omega arith)
