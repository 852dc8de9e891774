-- ===== src/AckBits/Tests.antt =====
-- An update by a newer number, and the jump that forgets.
use nova_net.Prelude.{◌≡◌, ◌==◌, ◌||◌, inl, arith}
use nova_net.Seq.{nn_seq_gt}
use nova_net.AckBits.{AckState, nn_ack_update}
use nova_net.AckBits.Window.{acks, acks-update}

-- 2, 1 and 65535 were received.
abbrev received : AckState
received = record { remote_seq = 2; ack_bits = 5 }

acks-update_example : acks (nn_ack_update received 5) 65535 ≡ (65535 == 5 || acks received 65535)
unfolding nn_ack_update nn_seq_gt
acks-update_example =
    acks-update received 5 65535 (omega arith) (omega arith) (omega arith) (omega arith)
      (inl (omega arith))
