-- ===== src/Seq/Order.antt =====
-- What the comparison and the distance of sequence numbers mean.
use nova_net.Prelude.{ℕ, ◌+◌, ◌-◌, ◌%◌, ◌^◌, ◌≤◌, ◌<◌, ◌≡◌, ◌≢◌, ◌↔◌, true, false, not, arith, u16}
use nova_net.Prelude.Bits.{bit_and-mask}
use nova_net.Prelude.Int.{pos, pos_part, neg_part, ◌+ℤ◌, ◌-ℤ◌, ◌<ℤ◌}
use nova_net.Seq.{half_range, nn_seq_gt, nn_seq_diff, slot}

-- Of two different 16-bit sequence numbers exactly one is the newer.
pub seq_gt_total :
    (s1 s2 : ℕ) → s1 < 2 ^ 16 → s2 < 2 ^ 16 → s1 ≢ s2 → nn_seq_gt s1 s2 ≡ not (nn_seq_gt s2 s1)
unfolding nn_seq_gt
seq_gt_total s1 s2 p q ne = ground arith

pub seq_gt_irrefl : (s : ℕ) → nn_seq_gt s s ≡ false
unfolding nn_seq_gt
seq_gt_irrefl s = ground arith

-- A number is newer than another exactly when its distance from it is positive, and the distance
-- is the representative, within half the range, of the difference modulo 2^16.
pub seq_diff_lem :
    (s1 s2 : ℕ)
    → s1 < 2 ^ 16
    → s2 < 2 ^ 16
    → ((nn_seq_gt s1 s2 ≡ true) ↔ (pos 0 <ℤ nn_seq_diff s1 s2))
      × (pos_part (nn_seq_diff s1 s2) ≤ half_range)
      × (neg_part (nn_seq_diff s1 s2) ≤ half_range)
      × ((s2 + pos_part (nn_seq_diff s1 s2)) % 2 ^ 16
          ≡ (s1 + neg_part (nn_seq_diff s1 s2)) % 2 ^ 16)
unfolding nn_seq_gt nn_seq_diff ◌+ℤ◌ ◌-ℤ◌
seq_diff_lem s1 s2 p q =
    ((λ h. ground arith, λ h. ground arith), ground arith, ground arith, ground arith)

-- Sending `k` more packets, fewer than half the range, makes the number newer by exactly `k`, also
-- across the wrap.
pub seq_advance :
    (s k : ℕ)
    → s < 2 ^ 16
    → 0 < k
    → k < half_range
    → (nn_seq_gt (u16 (s + k)) s ≡ true)
      × (nn_seq_diff (u16 (s + k)) s ≡ pos k)
      × (nn_seq_gt s (u16 (s + k)) ≡ false)
unfolding nn_seq_gt nn_seq_diff ◌+ℤ◌ ◌-ℤ◌
seq_advance s k p q r = (ground arith, ground arith, ground arith)

-- How far `s` is behind `t`, going round.
abbrev pub behind : ℕ → ℕ → ℕ
behind s t = (t + 2 ^ 16 - s) % 2 ^ 16

pub diff-behind :
    (s t : ℕ) → s < 2 ^ 16 → t < 2 ^ 16 → nn_seq_gt s t ≡ false → nn_seq_diff t s ≡ pos (behind s t)
unfolding nn_seq_gt nn_seq_diff ◌+ℤ◌ ◌-ℤ◌
diff-behind s t p q h = ground arith

pub diff-ahead :
    (s t : ℕ)
    → s < 2 ^ 16
    → t < 2 ^ 16
    → nn_seq_gt s t ≡ true
    → (nn_seq_diff s t ≡ pos (behind t s)) × (0 < behind t s) × (behind t s ≤ half_range)
unfolding nn_seq_gt nn_seq_diff ◌+ℤ◌ ◌-ℤ◌
diff-ahead s t p q h = ground arith

pub slot_mod : (s : ℕ) → slot s ≡ s % 256
unfolding slot
slot_mod s = bit_and-mask 8 s

pub slot-lt : (s : ℕ) → slot s < 256
slot-lt s = omega (arith, slot_mod s)
