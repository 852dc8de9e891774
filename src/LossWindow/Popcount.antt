-- ===== src/LossWindow/Popcount.antt =====
-- The portable branch of `popcount64` against the sum of the digits of a word.
use nova_net.Prelude.{
  ℕ, zero, suc, ◌+◌, ◌-◌, ◌*◌, ◌/◌, ◌%◌, ◌^◌, ◌<◌, ◌≤◌, ◌≡◌, refl, sym, ap, ◌∙◌, List, [], ◌∷◌,
  bit_and, u64, ap₂, arith,
}
use nova_net.Prelude.Bits.{bit, mul-pow-suc}
use nova_net.Prelude.Sum.{sum}
use native.Mathlib.Nat.{pow-suc}
use nova_net.Wire.{IsBytes, le_value, le_bytes}
use nova_net.Wire.Bytes.{IsBytes-le_bytes}
use nova_net.LossWindow.{popcount64}
use nova_net.LossWindow.Bytewise.{
  bytewise, pairs, nibbles, counts, pairs_bytes, nibbles_bytes, counts_bytes, halves-IsCounts,
  pairs-lt, counts-le, counts-digits,
}

-- The digits of a word, from the low end.
sum_low : (n x : ℕ) → sum (suc n) (bit x) ≡ x % 2 + sum n (bit (x / 2))
unfolding sum
sum_low zero x = omega arith
sum_low (suc n) x = omega (arith, sum_low n x)

sum_split :
    (k n a x : ℕ) → a < 2 ^ k → sum (k + n) (bit (a + x * 2 ^ k)) ≡ sum k (bit a) + sum n (bit x)
unfolding sum
sum_split zero n a x p =
    ap₂ (λ m y. sum m (bit y)) {x = 0 + n} {y = n} {u = a + x * 1} {v = x} (omega arith)
      (omega arith)
    ∙ omega arith
sum_split (suc k) n a x p =
    let y = a + x * 2 ^ suc k in
    let half : y / 2 ≡ a / 2 + x * 2 ^ k = omega (arith, mul-pow-suc x k) in
    let first = ap (λ m. sum m (bit y)) {x = suc k + n} {y = suc (k + n)} (omega arith) in
    let rest = sum_split k n (a / 2) x (omega (arith, pow-suc 2 k)) in
    let moved = ap (λ z. sum (k + n) (bit z)) half in
    let low = sum_low (k + n) y in
    let low' = sum_low k a in
    let parity : y % 2 ≡ a % 2 = omega (arith, mul-pow-suc x k) in
    first ∙ low ∙ ap₂ (λ u v. u + v) parity (moved ∙ rest) ∙ omega (arith, low')

abbrev total : List ℕ → ℕ
total [] = 0
total (b ∷ bs) = sum 8 (bit b) + total bs

-- The sum of the eight bytes, in the highest byte of the product.
product :
    (a b c d e f g h : ℕ)
    → a ≤ 8
    → b ≤ 8
    → c ≤ 8
    → d ≤ 8
    → e ≤ 8
    → f ≤ 8
    → g ≤ 8
    → h ≤ 8
    → u64 (
          (a
            + (b + (c + (d + (e + (f + (g + (h + 0 * 256) * 256) * 256) * 256) * 256) * 256) * 256)
              * 256)
          * 0x0101010101010101)
        / 2 ^ 56
      ≡ a + (b + (c + (d + (e + (f + (g + h))))))
product a b c d e f g h p0 p1 p2 p3 p4 p5 p6 p7 = omega arith

abbrev width : List ℕ → ℕ
width [] = 0
width (b ∷ bs) = 8 + width bs

digits_total : (bs : List ℕ) → IsBytes bs → sum (width bs) (bit (le_value bs)) ≡ total bs
unfolding sum
digits_total [] h = refl
digits_total (b ∷ bs) (p, h) =
    sum_split 8 (width bs) b (le_value bs) p ∙ ap (λ r. sum 8 (bit b) + r) (digits_total bs h)

-- The last two lines of the code, on eight bytes of counts.
finish :
    (x2 x3 : ℕ)
    → x2 + x2 / 16 < 2 ^ 64
    → bit_and (x2 + x2 / 16) 0x0F0F0F0F0F0F0F0F ≡ x3
    → u64 (bit_and (u64 (x2 + x2 / 16)) 0x0F0F0F0F0F0F0F0F * 0x0101010101010101) / 2 ^ 56
      ≡ u64 (x3 * 0x0101010101010101) / 2 ^ 56
finish x2 x3 h e = let same : u64 (x2 + x2 / 16) ≡ x2 + x2 / 16 = omega arith in rw (same, e) refl

popcount_steps :
    (x x1 x2 x3 : ℕ)
    → x < 2 ^ 64
    → bit_and (x / 2) 0x5555555555555555 + x1 ≡ x
    → bit_and x1 0x3333333333333333 + bit_and (x1 / 4) 0x3333333333333333 ≡ x2
    → x2 + x2 / 16 < 2 ^ 64
    → bit_and (x2 + x2 / 16) 0x0F0F0F0F0F0F0F0F ≡ x3
    → popcount64 x ≡ u64 (x3 * 0x0101010101010101) / 2 ^ 56
unfolding popcount64
popcount_steps x x1 x2 x3 h e1 e2 small e3 =
    let first : u64 (x + 2 ^ 64 - bit_and (x / 2) 0x5555555555555555) ≡ x1 = omega (arith, e1) in
    let second : u64 (bit_and x1 0x3333333333333333 + bit_and (x1 / 4) 0x3333333333333333) ≡ x2 =
      omega (arith, e2) in
    rw (first, second) (finish x2 x3 small e3)

counts_total :
    (b0 b1 b2 b3 b4 b5 b6 b7 : ℕ)
    → let bs = b0 ∷ b1 ∷ b2 ∷ b3 ∷ b4 ∷ b5 ∷ b6 ∷ b7 ∷ [] in
      IsBytes bs → u64 (bytewise counts bs * 0x0101010101010101) / 2 ^ 56 ≡ total bs
counts_total b0 b1 b2 b3 b4 b5 b6 b7 (p0, (p1, (p2, (p3, (p4, (p5, (p6, (p7, _)))))))) =
    product (counts b0) (counts b1) (counts b2) (counts b3) (counts b4) (counts b5) (counts b6)
      (counts b7) (counts-le b0 p0) (counts-le b1 p1) (counts-le b2 p2) (counts-le b3 p3)
      (counts-le b4 p4) (counts-le b5 p5) (counts-le b6 p6) (counts-le b7 p7)
    ∙ omega (
      arith,
      counts-digits b0 p0,
      counts-digits b1 p1,
      counts-digits b2 p2,
      counts-digits b3 p3,
      counts-digits b4 p4,
      counts-digits b5 p5,
      counts-digits b6 p6,
      counts-digits b7 p7,
    )

nibbles-lt :
    (b0 b1 b2 b3 b4 b5 b6 b7 : ℕ)
    → let bs = b0 ∷ b1 ∷ b2 ∷ b3 ∷ b4 ∷ b5 ∷ b6 ∷ b7 ∷ [] in
      IsBytes bs → let x2 = bytewise (λ b. nibbles (pairs b)) bs in x2 + x2 / 16 < 2 ^ 64
nibbles-lt b0 b1 b2 b3 b4 b5 b6 b7 (p0, (p1, (p2, (p3, (p4, (p5, (p6, (p7, _)))))))) = omega (
  arith,
  (halves-IsCounts b0 p0).0,
  (halves-IsCounts b1 p1).0,
  (halves-IsCounts b2 p2).0,
  (halves-IsCounts b3 p3).0,
  (halves-IsCounts b4 p4).0,
  (halves-IsCounts b5 p5).0,
  (halves-IsCounts b6 p6).0,
  (halves-IsCounts b7 p7).0,
)

popcount_bytes :
    (b0 b1 b2 b3 b4 b5 b6 b7 : ℕ)
    → let bs = b0 ∷ b1 ∷ b2 ∷ b3 ∷ b4 ∷ b5 ∷ b6 ∷ b7 ∷ [] in
      IsBytes bs → le_value bs < 2 ^ 64 → popcount64 (le_value bs) ≡ sum 64 (bit (le_value bs))
popcount_bytes b0 b1 b2 b3 b4 b5 b6 b7 h small =
    let bs = b0 ∷ b1 ∷ b2 ∷ b3 ∷ b4 ∷ b5 ∷ b6 ∷ b7 ∷ [] in
    let halved = (λ (b : ℕ). nibbles (pairs b)) in
    popcount_steps (le_value bs) (bytewise pairs bs) (bytewise halved bs) (bytewise counts bs) small
      (pairs_bytes bs h) (nibbles_bytes pairs bs pairs-lt h) (nibbles-lt b0 b1 b2 b3 b4 b5 b6 b7 h)
      (counts_bytes bs h)
    ∙ counts_total b0 b1 b2 b3 b4 b5 b6 b7 h
    ∙ sym (digits_total bs h)

-- The portable count of the digits of a 64-bit word is their sum.
pub popcount64-sum : (x : ℕ) → x < 2 ^ 64 → popcount64 x ≡ sum 64 (bit x)
popcount64-sum x h =
    let same : le_value (le_bytes 8 x) ≡ x = omega arith in
    ap popcount64 (sym same)
    ∙ popcount_bytes _ _ _ _ _ _ _ _ (IsBytes-le_bytes 8 x) (omega arith)
    ∙ ap (λ y. sum 64 (bit y)) same
