-- ===== src/Prelude/Sum.antt =====
-- Sums of the first values of a function.
use Prim.Native.Nat.{ℕ, zero, suc, ◌+◌, ◌<◌}
use mathlib.Core.Path.{◌≡◌, refl, ap, ap₂, ◌∙◌}
use native.Mathlib.Omega.{arith}
use native.Mathlib.Decide.{dec_lt}
use nova_net.Prelude.Tests.{◌==◌, if◌then◌else◌}

unfoldable pub sum : ℕ → (ℕ → ℕ) → ℕ
sum zero f = 0
sum (suc n) f = sum n f + f n

pub sum_cong : (n : ℕ) (f g : ℕ → ℕ) → ((k : ℕ) → k < n → f k ≡ g k) → sum n f ≡ sum n g
unfolding sum
sum_cong zero f g h = refl
sum_cong (suc n) f g h =
    ap₂ (λ (a b : ℕ). a + b) (sum_cong n f g (λ k p. h k (omega arith))) (h n (omega arith))

pub sum_none : (n : ℕ) (f : ℕ → ℕ) → ((k : ℕ) → k < n → f k ≡ 0) → sum n f ≡ 0
unfolding sum
sum_none zero f h = refl
sum_none (suc n) f h = omega (arith, sum_none n f (λ k p. h k (omega arith)), h n (omega arith))

-- The sum in two parts.
pub sum_split : (m n : ℕ) (f : ℕ → ℕ) → sum (m + n) f ≡ sum m f + sum n (λ k. f (m + k))
unfolding sum
sum_split m zero f = ap (λ (k : ℕ). sum k f) {x = m + 0} {y = m} (omega arith) ∙ omega arith
sum_split m (suc n) f =
    ap (λ (k : ℕ). sum k f) {x = m + suc n} {y = suc (m + n)} (omega arith)
    ∙ omega (arith, sum_split m n f)

-- One value exchanged.
pub sum_update :
    (n i v : ℕ) (f g : ℕ → ℕ)
    → i < n
    → ((k : ℕ) → k < n → g k ≡ (if i == k then v else f k))
    → sum n g + f i ≡ sum n f + v
unfolding sum
sum_update zero i v f g h e = absurd (omega arith)
sum_update (suc n) i v f g h e = elim (dec_lt i n) [
  | yes p ↦ ground (arith, sum_update n i v f g p (λ k q. e k (omega arith)), e n (omega arith))
  | no p ↦
      let same : i ≡ n = omega arith in
      let rest = sum_cong n g f (λ k q. e k (omega arith) ∙ ground arith) in
      ground (arith, rest, e n (omega arith), ap f same)
]

pub sum-suc : (n : ℕ) (f : ℕ → ℕ) → sum (suc n) f ≡ sum n f + f n
unfolding sum
sum-suc n f = refl

pub sum-zero : (f : ℕ → ℕ) → sum 0 f ≡ 0
unfolding sum
sum-zero f = refl
