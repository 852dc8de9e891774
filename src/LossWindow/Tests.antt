-- ===== src/LossWindow/Tests.antt =====
-- A window in which every third sample is lost.
use nova_net.Prelude.{
  arith, ℕ, ◌*◌, ◌/◌, ltb, leb, if◌then◌else◌, ◌+◌, ◌-◌, ◌%◌, ◌≡◌, Bool, ◌==◌, min,
}
use nova_net.Prelude.Int.{pos, pos_part}
use nova_net.Congestion.Double.{Double}
use nova_net.Prelude.Bits.{bit}
use nova_net.Prelude.Sum.{sum}
use nova_net.LossWindow.{popcount64, nn_loss_window_percent}
use nova_net.LossWindow.Popcount.{popcount64-sum}
use nova_net.LossWindow.Window.{run, lost_among}
use nova_net.LossWindow.Percent.{percent-run}

abbrev every_third : ℕ → Bool
every_third i = i % 3 == 0

abbrev whole : Double ℕ
whole = record {
  add = λ a b. a + b;
  sub = λ a b. a - b;
  mul = λ a b. a * b;
  div = λ a b. a / b;
  lt = ltb;
  le = leb;
  from_int = pos_part;
  to_int = pos;
}

percent-run_example : nn_loss_window_percent popcount64 whole (run every_third 300) ≡ (
    if 300 == 0
    then whole.from_int (pos 0)
    else whole.div
        (whole.from_int (pos (lost_among every_third 300 - lost_among every_third (300 - 256))))
        (whole.from_int (pos (min 300 256))))
percent-run_example = percent-run whole popcount64 every_third 300 popcount64-sum

popcount64-sum_example : popcount64 0xF0F0000000000001 ≡ sum 64 (bit 0xF0F0000000000001)
popcount64-sum_example = popcount64-sum 0xF0F0000000000001 (omega arith)
