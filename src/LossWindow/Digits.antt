-- ===== src/LossWindow/Digits.antt =====
-- The digits of the window: what a sample changes, and their sum.
use nova_net.Prelude.{
  ℕ, zero, suc, ◌+◌, ◌-◌, ◌*◌, ◌/◌, ◌%◌, ◌^◌, ◌<◌, ◌≤◌, ◌≡◌, sym, ap, ap₂, ◌∙◌, List, length,
  get_or, set, get_or-set, bit_and, bit_or, Bool, Bool-cases, inl, inr, ==_iff, true, false,
  if◌then◌else◌, ◌==◌, u64, not64, ◌<<<◌, arith,
}
use native.Mathlib.Nat.{pow-suc, mod-le, mod-eq_of_lt, pow-le-pow_right}
use native.Mathlib.Decide.{dec_lt}
use nova_net.Prelude.Bits.{
  bit, bit-le-one, bit-bit_and, bit-bit_or, bit-pow, bit-mod_pow, bit_and-mask, bit_and-le,
  bit_or-lt,
}
use nova_net.Prelude.Sum.{sum, sum-zero, sum_cong, sum_none, sum_split}
use nova_net.LossWindow.{LossWindow, put_digit, nn_loss_window_record, lost_from}

abbrev pub digit_of : Bool → ℕ
digit_of true = 1
digit_of false = 0

-- Digit `j` of the words.
abbrev pub digit : List ℕ → ℕ → ℕ
digit bits j = bit (get_or bits (j / 64) 0) (j % 64)

-- The digits of a complement.
bit-complement : (n x k : ℕ) → x < 2 ^ n → k < n → bit (2 ^ n - 1 - x) k ≡ 1 - bit x k
bit-complement zero x k h p = absurd (omega arith)
bit-complement (suc n) x zero h p = omega (arith, pow-suc 2 n)
bit-complement (suc n) x (suc k) h p =
    ap (λ (v : ℕ). bit v k) (half n x h)
    ∙ bit-complement n (x / 2) k (omega (arith, pow-suc 2 n)) (omega arith)
  where
    half : (n x : ℕ) → x < 2 ^ suc n → (2 ^ suc n - 1 - x) / 2 ≡ 2 ^ n - 1 - x / 2
    half n x h = omega (arith, pow-suc 2 n)

small-pow : (k : ℕ) → k < 64 → u64 (1 * 2 ^ k) ≡ 2 ^ k
small-pow k h =
    let le : 2 ^ k ≤ 2 ^ 63 =
      pow-le-pow_right {n = 2} (omega arith) {i = k} {j = 63} (omega arith) in
    ap u64 {x = 1 * 2 ^ k} {y = 2 ^ k} (omega arith)
    ∙ mod-eq_of_lt {n = 2 ^ k} {m = 2 ^ 64} (omega arith)

bit-put_digit :
    (word k j : ℕ) (lost : Bool)
    → k < 64
    → j < 64
    → bit (put_digit word k lost) j ≡ (if k == j then digit_of lost else bit word j)
unfolding put_digit
bit-put_digit word k j true h p =
    ap (λ (m : ℕ). bit (bit_or word m) j) (small-pow k h)
    ∙ ground (arith, bit-bit_or word (2 ^ k) j, bit-pow k j, bit-le-one word j)
bit-put_digit word k j false h p =
    let le : 2 ^ k ≤ 2 ^ 63 =
      pow-le-pow_right {n = 2} (omega arith) {i = k} {j = 63} (omega arith) in
    ap (λ (m : ℕ). bit (bit_and word (2 ^ 64 - 1 - m)) j) (small-pow k h)
    ∙ ground (
      arith,
      bit-bit_and word (2 ^ 64 - 1 - 2 ^ k) j,
      bit-complement 64 (2 ^ k) j (omega arith) p,
      bit-pow k j,
      bit-le-one word j,
    )

-- A digit of the words with one digit written.
digit-set :
    (bits : List ℕ) (i j : ℕ) (lost : Bool)
    → length bits ≡ 4
    → i < 256
    → j < 256
    → digit (set bits (i / 64) (put_digit (get_or bits (i / 64) 0) (i % 64) lost)) j
      ≡ (if i == j then digit_of lost else digit bits j)
digit-set bits i j lost h p q =
    let v = put_digit (get_or bits (i / 64) 0) (i % 64) lost in
    let written =
      bit-put_digit (get_or bits (i / 64) 0) (i % 64) (j % 64) lost (omega arith) (omega arith) in
    ap (λ (w : ℕ). bit w (j % 64)) (get_or-set bits (i / 64) (j / 64) v 0 (omega arith))
    ∙ elim (Bool-cases (i / 64 == j / 64)) [
      | inl e ↦
          let same : i / 64 ≡ j / 64 = (==_iff (i / 64) (j / 64)).0 e in
          let kept : bit (get_or bits (i / 64) 0) (j % 64) ≡ digit bits j =
            ap (λ (w : ℕ). bit (get_or bits w 0) (j % 64)) same in
          rw e (ground (arith, written, kept))
      | inr e ↦ rw e (ground arith)
    ]

-- A sample changes the digit at its place.
pub digit-record :
    (lw : LossWindow) (lost : Bool) (j : ℕ)
    → length lw.bits ≡ 4
    → j < 256
    → digit (nn_loss_window_record lw lost).bits j
      ≡ (if lw.index % 256 == j then digit_of lost else digit lw.bits j)
unfolding nn_loss_window_record
digit-record lw lost j h p =
    let i = lw.index % 256 in
    let place : bit_and lw.index 255 ≡ i = bit_and-mask 8 lw.index in
    let low : bit_and (bit_and lw.index 255) 63 ≡ i % 64 =
      bit_and-mask 6 (bit_and lw.index 255) ∙ ap (λ (v : ℕ). v % 64) place in
    ap₂ (λ (v k : ℕ). digit (set lw.bits (v / 64) (put_digit (get_or lw.bits (v / 64) 0) k lost)) j)
      place low
    ∙ digit-set lw.bits i j lost h (omega arith) p

bound-first : (rounds k : ℕ) → k < 64 → k < suc rounds * 64
bound-first rounds k h = omega arith

bound-next : (rounds k : ℕ) → k < rounds * 64 → 64 + k < suc rounds * 64
bound-next rounds k h = omega arith

-- The digits of the words from word `i` on.
abbrev pub from : List ℕ → ℕ → ℕ → ℕ
from bits i k = bit (get_or bits (i + k / 64) 0) (k % 64)

module _ (popcount : ℕ → ℕ) (counts : (x : ℕ) → x < 2 ^ 64 → popcount x ≡ sum 64 (bit x))
    (bits : List ℕ) (small : (i : ℕ) → get_or bits i 0 < 2 ^ 64) where
  from-next : (i k : ℕ) → from bits i (64 + k) ≡ from bits (i + 1) k
  from-next i k =
      let place : i + (64 + k) / 64 ≡ i + 1 + k / 64 = omega arith in
      let low : (64 + k) % 64 ≡ k % 64 = omega arith in
      ap₂ (λ (w c : ℕ). bit (get_or bits w 0) c) place low

  from-first : (i k : ℕ) → k < 64 → from bits i k ≡ bit (get_or bits i 0) k
  from-first i k p =
      let place : i + k / 64 ≡ i = omega arith in
      let low : k % 64 ≡ k = omega arith in ap₂ (λ (w c : ℕ). bit (get_or bits w 0) c) place low

  from-suc :
      (rounds i : ℕ)
      → sum (suc rounds * 64) (from bits i)
        ≡ sum 64 (bit (get_or bits i 0)) + sum (rounds * 64) (from bits (i + 1))
  from-suc rounds i =
      ap (λ (n : ℕ). sum n (from bits i)) {x = suc rounds * 64} {y = 64 + rounds * 64} (omega arith)
      ∙ sum_split 64 (rounds * 64) (from bits i)
      ∙ ap₂ (λ (a b : ℕ). a + b) (sum_cong 64 (from bits i) (bit (get_or bits i 0)) (from-first i))
          (sum_cong (rounds * 64) (λ k. from bits i (64 + k)) (from bits (i + 1))
            (λ k p. from-next i k))

  -- A word under the mask of the digits that are left.
  masked :
      (word remaining : ℕ)
      → remaining < 64
      → ((k : ℕ) → remaining ≤ k → k < 64 → bit word k ≡ 0)
      → word < 2 ^ 64
      → popcount (bit_and word (u64 (1 <<< remaining) - 1)) ≡ sum 64 (bit word)
  masked word remaining p h b =
      ap (λ (m : ℕ). popcount (bit_and word (m - 1))) (small-pow remaining p)
      ∙ ap popcount (bit_and-mask remaining word)
      ∙ counts (word % 2 ^ remaining) (omega (arith, b, mod-le word (2 ^ remaining)))
      ∙ sum_cong 64 (bit (word % 2 ^ remaining)) (bit word) (λ k hi. elim (dec_lt k remaining) [
        | yes q ↦ ground (arith, bit-mod_pow remaining word k)
        | no q ↦ ground (arith, bit-mod_pow remaining word k, h k (omega arith) hi)
      ])

  -- The loop adds the digits, when none stands behind the samples.
  pub lost_from-sum :
      (rounds i remaining total : ℕ)
      → ((k : ℕ) → remaining ≤ k → k < rounds * 64 → from bits i k ≡ 0)
      → lost_from popcount rounds i bits remaining total ≡ total + sum (rounds * 64) (from bits i)
  unfolding lost_from
  lost_from-sum zero i remaining total h = omega (arith, sum-zero (from bits i))
  lost_from-sum (suc rounds) i remaining total h =
      let word = get_or bits i 0 in
      let next = sum (rounds * 64) (from bits (i + 1)) in
      let shifted : sum (suc rounds * 64) (from bits i) ≡ sum 64 (bit word) + next =
        from-suc rounds i in
      let full = counts word (small i) in
      elim (dec_lt remaining 64) [
        | no p ↦
            let rest =
              lost_from-sum rounds (i + 1) (remaining - 64) (total + popcount word) (λ k lo hi.
                sym (from-next i k) ∙ h (64 + k) (omega arith) (bound-next rounds k hi)) in
            ground (arith, rest, shifted, full)
        | yes p ↦
            let tail : next ≡ 0 =
              sum_none (rounds * 64) (from bits (i + 1))
                (λ k hi. sym (from-next i k) ∙ h (64 + k) (omega arith) (bound-next rounds k hi)) in
            let cut =
              masked word remaining p
                (λ k lo hi. sym (from-first i k hi) ∙ h k lo (bound-first rounds k hi)) (small i) in
            let first : remaining ≡ 0 → sum 64 (bit word) ≡ 0 = (λ e.
              sum_none 64 (bit word) (λ k hi.
                sym (from-first i k hi) ∙ h k (omega (arith, e)) (bound-first rounds k hi))) in
            ground (arith, shifted, tail, cut, full, first)
      ]

pub put_digit-lt :
    (word k : ℕ) (lost : Bool) → word < 2 ^ 64 → k < 64 → put_digit word k lost < 2 ^ 64
unfolding put_digit
put_digit-lt word k true h p = bit_or-lt 64 word (u64 (1 <<< k)) h (omega arith)
put_digit-lt word k false h p = bit_and-le 64 word (not64 (u64 (1 <<< k))) (omega arith)
