-- ===== src/LossWindow/Percent.antt =====
-- The result of `nn_loss_window_percent` after a sequence of samples.
use nova_net.Prelude.{ℕ, refl, ◌-◌, ◌^◌, ◌<◌, ◌≡◌, Bool, if◌then◌else◌, ◌==◌, min, arith}
use nova_net.Prelude.Int.{pos}
use nova_net.Prelude.Bits.{bit}
use nova_net.Prelude.Sum.{sum}
use nova_net.Congestion.Double.{Double}
use nova_net.LossWindow.{total_lost, nn_loss_window_percent}
use nova_net.LossWindow.Window.{run, lost_among, total_lost-run}

-- The loss after any number of samples: 0 before the first, then the quotient of the lost ones among the
-- last 256 samples, or among all if they are fewer, by the number of these, if the instruction that
-- counts the digits of a 64-bit word does so.
pub percent-run :
    {F : Type 0} (double : Double F) (popcount : ℕ → ℕ) (samples : ℕ → Bool) (n : ℕ)
    → ((x : ℕ) → x < 2 ^ 64 → popcount x ≡ sum 64 (bit x))
    → nn_loss_window_percent popcount double (run samples n) ≡ (
        if n == 0
        then double.from_int (pos 0)
        else double.div
            (double.from_int (pos (lost_among samples n - lost_among samples (n - 256))))
            (double.from_int (pos (min n 256))))
unfolding nn_loss_window_percent
percent-run double popcount samples n counts =
    let (total, count) = total_lost-run popcount samples n counts in
    let lost : total_lost popcount (run samples n)
        ≡ lost_among samples n - lost_among samples (n - 256) =
      omega (arith, total) in
    let none_yet : (min n 256 == 0) ≡ (n == 0) = ground arith in rw (count, lost, none_yet) refl
