-- ===== src/Seq/Tests.antt =====
-- Sequence numbers across the wrap.
use nova_net.Prelude.{◌+◌, ◌%◌, ◌^◌, ◌≤◌, ◌≡◌, ◌↔◌, true, arith}
use nova_net.Prelude.Int.{pos, pos_part, neg_part, ◌<ℤ◌}
use nova_net.Seq.{nn_seq_gt, nn_seq_diff, half_range}
use nova_net.Seq.Order.{seq_diff_lem}

seq_diff_lem_example :
    ((nn_seq_gt 3 65535 ≡ true) ↔ (pos 0 <ℤ nn_seq_diff 3 65535))
    × (pos_part (nn_seq_diff 3 65535) ≤ half_range)
    × (neg_part (nn_seq_diff 3 65535) ≤ half_range)
    × ((65535 + pos_part (nn_seq_diff 3 65535)) % 2 ^ 16
        ≡ (3 + neg_part (nn_seq_diff 3 65535)) % 2 ^ 16)
seq_diff_lem_example = seq_diff_lem 3 65535 (omega arith) (omega arith)
