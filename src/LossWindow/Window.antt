-- ===== src/LossWindow/Window.antt =====
-- The window after a sequence of samples.
use nova_net.Prelude.{
  ℕ, zero, suc, ◌+◌, ◌-◌, ◌/◌, ◌%◌, ◌^◌, ◌<◌, ◌≤◌, ◌≡◌, refl, ap, ◌∙◌, [], ◌∷◌, length, length-set,
  get_or, get_or-set, get_or-replicate, bit_and, Bool, if◌then◌else◌, ◌==◌, min, arith,
}
use native.Mathlib.Decide.{dec_lt}
use nova_net.Prelude.Bits.{bit, bit_zero, bit_and-mask}
use nova_net.Prelude.Sum.{sum, sum-suc, sum-zero, sum_none, sum_cong, sum_update}
use nova_net.LossWindow.{
  LossWindow, put_digit, nn_loss_window_init, nn_loss_window_record, total_lost,
}
use nova_net.LossWindow.Digits.{digit_of, digit, digit-record, from, lost_from-sum, put_digit-lt}

-- The window after the first `n` of the samples.
abbrev pub run : (ℕ → Bool) → ℕ → LossWindow
run samples zero = nn_loss_window_init
run samples (suc n) = nn_loss_window_record (run samples n) (samples n)

-- How many of the first `n` samples are lost.
abbrev pub lost_among : (ℕ → Bool) → ℕ → ℕ
lost_among samples n = sum n (λ i. digit_of (samples i))

-- The digits hold the last 256 samples, and nothing else.
record Holds (samples : ℕ → Bool) (n : ℕ) (lw : LossWindow) : Type 0 where
  size : length lw.bits ≡ 4
  small : (i : ℕ) → get_or lw.bits i 0 < 2 ^ 64
  index : lw.index % 256 ≡ n % 256
  count : lw.count ≡ min n 256
  held : (i : ℕ) → i < n → n ≤ i + 256 → digit lw.bits (i % 256) ≡ digit_of (samples i)
  free : (j : ℕ) → n ≤ j → j < 256 → digit lw.bits j ≡ 0
  total : sum 256 (digit lw.bits) + lost_among samples (n - 256) ≡ lost_among samples n

init-Holds : (samples : ℕ → Bool) → Holds samples 0 nn_loss_window_init
unfolding nn_loss_window_init
init-Holds samples =
    let none = λ (j : ℕ).
      ap (λ (w : ℕ). bit w (j % 64)) (get_or-replicate {A = ℕ} 4 (j / 64) 0) ∙ bit_zero (j % 64) in
    record {
      size = refl;
      small = (λ i. omega (arith, get_or-replicate {A = ℕ} 4 i 0));
      index = refl;
      count = refl;
      held = (λ i h p. absurd (omega arith));
      free = (λ j h p. none j);
      total = omega (
        arith,
        sum_none 256 (digit (0 ∷ 0 ∷ 0 ∷ 0 ∷ [])) (λ j p. none j),
        sum-zero (λ i. digit_of (samples i)),
      );
    }

module _ (samples : ℕ → Bool) (n : ℕ) (lw : LossWindow) (h : Holds samples n lw) where
  abbrev next : LossWindow
  next = nn_loss_window_record lw (samples n)

  changed :
      (j : ℕ)
      → j < 256
      → digit next.bits j ≡ (if n % 256 == j then digit_of (samples n) else digit lw.bits j)
  changed j p =
      digit-record lw (samples n) j h.size p
      ∙ ap (λ (v : ℕ). if v == j then digit_of (samples n) else digit lw.bits j) h.index

  next-held :
      (i : ℕ) → i < suc n → suc n ≤ i + 256 → digit next.bits (i % 256) ≡ digit_of (samples i)
  next-held i p q = elim (dec_lt i n) [
    | yes r ↦
        let old = h.held i r (omega arith) in ground (arith, changed (i % 256) (omega arith), old)
    | no r ↦
        let same : n ≡ i = omega arith in
        ground (arith, changed (i % 256) (omega arith), ap (λ (k : ℕ). digit_of (samples k)) same)
  ]

  next-free : (j : ℕ) → suc n ≤ j → j < 256 → digit next.bits j ≡ 0
  next-free j p q = let old = h.free j (omega arith) q in ground (arith, changed j q, old)

  next-total :
      sum 256 (digit next.bits) + lost_among samples (suc n - 256) ≡ lost_among samples (suc n)
  next-total =
      let d = (λ (i : ℕ). digit_of (samples i)) in
      let exchange =
        sum_update 256 (n % 256) (d n) (digit lw.bits) (digit next.bits) (omega arith) changed in
      let sums = h.total in
      let grown = sum-suc n d in
      elim (dec_lt n 256) [
        | yes p ↦
            let empty : digit lw.bits (n % 256) ≡ 0 =
              ap (digit lw.bits) {x = n % 256} {y = n} (omega arith) ∙ h.free n (omega arith) p in
            let same : sum (suc n - 256) d ≡ sum (n - 256) d =
              ap (λ (k : ℕ). sum k d) {x = suc n - 256} {y = n - 256} (omega arith) in
            omega (arith, exchange, sums, grown, empty, same)
        | no p ↦
            let oldest : digit lw.bits (n % 256) ≡ d (n - 256) =
              ap (digit lw.bits) {x = n % 256} {y = (n - 256) % 256} (omega arith)
              ∙ h.held (n - 256) (omega arith) (omega arith) in
            let same : sum (suc n - 256) d ≡ sum (n - 256) d + d (n - 256) =
              ap (λ (k : ℕ). sum k d) {x = suc n - 256} {y = suc (n - 256)} (omega arith)
              ∙ sum-suc (n - 256) d in
            omega (arith, exchange, sums, grown, oldest, same)
      ]

  next-words :
      (length next.bits ≡ 4)
      × ((i : ℕ) → get_or next.bits i 0 < 2 ^ 64)
      × (next.index % 256 ≡ suc n % 256)
      × (next.count ≡ min (suc n) 256)
  unfolding nn_loss_window_record
  next-words =
      let w = bit_and lw.index 255 / 2 ^ 6 in
      let k = bit_and (bit_and lw.index 255) 63 in
      let v = put_digit (get_or lw.bits w 0) k (samples n) in
      let size = h.size in
      let low = bit_and-mask 8 lw.index in
      let v_small =
        put_digit-lt (get_or lw.bits w 0) k (samples n) (h.small w)
          (omega (arith, bit_and-mask 6 (bit_and lw.index 255))) in
      (
        length-set lw.bits w v ∙ size,
        (λ i.
            let old = h.small i in
            ground (arith, get_or-set lw.bits w i v 0 (omega (arith, size, low)), old, v_small)),
        omega (arith, h.index),
        ground (arith, h.count),
      )

  next-Holds : Holds samples (suc n) next
  next-Holds =
      let (size, small, index, count) = next-words in
      record {
        size = size;
        small = small;
        index = index;
        count = count;
        held = next-held;
        free = next-free;
        total = next-total;
      }

run-Holds : (samples : ℕ → Bool) (n : ℕ) → Holds samples n (run samples n)
run-Holds samples zero = init-Holds samples
run-Holds samples (suc n) = next-Holds samples n (run samples n) (run-Holds samples n)

-- After any number of samples, the loss that is counted is the number of lost ones among the last 256
-- of them, or among all if they are fewer, and the count is the number of these, if the instruction
-- that counts the digits of a 64-bit word does so.
pub total_lost-run :
    (popcount : ℕ → ℕ) (samples : ℕ → Bool) (n : ℕ)
    → ((x : ℕ) → x < 2 ^ 64 → popcount x ≡ sum 64 (bit x))
    → (total_lost popcount (run samples n) + lost_among samples (n - 256) ≡ lost_among samples n)
      × ((run samples n).count ≡ min n 256)
unfolding total_lost
total_lost-run popcount samples n counts =
    let lw = run samples n in
    let h = run-Holds samples n in
    let place = λ (k : ℕ).
      ap (λ (w : ℕ). bit (get_or lw.bits w 0) (k % 64)) {x = 0 + k / 64} {y = k / 64}
        (omega arith) in
    let count = h.count in
    let counted =
      lost_from-sum popcount counts lw.bits h.small 4 0 lw.count 0
        (λ k p q. place k ∙ h.free k (omega (arith, count)) (omega arith)) in
    let digits : sum 256 (from lw.bits 0) ≡ sum 256 (digit lw.bits) =
      sum_cong 256 (from lw.bits 0) (digit lw.bits) (λ k p. place k) in
    (omega (arith, counted, h.total, digits), count)
