-- ===== src/Crypto/Poly1305/Block.antt =====
-- One block: the message is added, and the product with `r` is folded modulo 2^130 - 5.
use nova_net.Prelude.{
  ℕ, ◌+◌, ◌-◌, ◌*◌, ◌/◌, ◌%◌, ◌^◌, ◌<◌, ◌≤◌, ◌≡◌, bit_and, bit_or, u32, ◌<<<◌, ◌>>>◌, arith,
}
use native.Mathlib.Nat.{mul-le-mul, mod-eq_of_lt}
use nova_net.Prelude.Bits.{bit_and-mask, bit_or-add_right}
use nova_net.Crypto.Poly1305.{Limbs, Words, limb_mask, add_block, products, carry}

-- The numbers that limbs and words spell, and the prime.
abbrev pub limbs_value : Limbs → ℕ
limbs_value l = l.l0 + l.l1 * 2 ^ 26 + l.l2 * 2 ^ 52 + l.l3 * 2 ^ 78 + l.l4 * 2 ^ 104

abbrev pub words_value : Words → ℕ
words_value w = w.w0 + w.w1 * 2 ^ 32 + w.w2 * 2 ^ 64 + w.w3 * 2 ^ 96

abbrev pub prime : ℕ
prime = 2 ^ 130 - 5

pub record IsWords (w : Words) : Type 0 where
  pub b0 : w.w0 < 2 ^ 32
  pub b1 : w.w1 < 2 ^ 32
  pub b2 : w.w2 < 2 ^ 32
  pub b3 : w.w3 < 2 ^ 32

-- Limbs of 26 bits, such as those of the clamped key.
pub record IsSmall (l : Limbs) : Type 0 where
  pub b0 : l.l0 < 2 ^ 26
  pub b1 : l.l1 < 2 ^ 26
  pub b2 : l.l2 < 2 ^ 26
  pub b3 : l.l3 < 2 ^ 26
  pub b4 : l.l4 < 2 ^ 26

-- The accumulator between blocks: a last carry may stand in the second limb.
pub record IsCarried (l : Limbs) : Type 0 where
  pub b0 : l.l0 < 2 ^ 26
  pub b1 : l.l1 < 2 ^ 26 + 64
  pub b2 : l.l2 < 2 ^ 26
  pub b3 : l.l3 < 2 ^ 26
  pub b4 : l.l4 < 2 ^ 26

-- The accumulator with a block added.
pub record IsAdded (l : Limbs) : Type 0 where
  pub b0 : l.l0 < 2 ^ 27
  pub b1 : l.l1 < 2 ^ 27 + 64
  pub b2 : l.l2 < 2 ^ 27
  pub b3 : l.l3 < 2 ^ 27
  pub b4 : l.l4 < 2 ^ 27

-- The limb that two words share.
pub joined :
    (k a q c : ℕ) → c ≡ q * 2 ^ k → a < 2 ^ k → bit_and (bit_or a c) limb_mask ≡ (a + c) % 2 ^ 26
joined k a q c e h = rw e (rw (bit_or-add_right k a q h) (bit_and-mask 26 (a + q * 2 ^ k)))

module _ (h : Limbs) (t : Words) (b : ℕ) (v : IsCarried h) (w : IsWords t) (p : b ≤ 1) where
  sums :
      (bit_and t.w0 limb_mask ≡ t.w0 % 2 ^ 26)
      × (bit_and (bit_or (t.w0 >>> 26) (u32 (t.w1 <<< 6))) limb_mask
          ≡ (t.w0 >>> 26 + u32 (t.w1 <<< 6)) % 2 ^ 26)
      × (bit_and (bit_or (t.w1 >>> 20) (u32 (t.w2 <<< 12))) limb_mask
          ≡ (t.w1 >>> 20 + u32 (t.w2 <<< 12)) % 2 ^ 26)
      × (bit_and (bit_or (t.w2 >>> 14) (u32 (t.w3 <<< 18))) limb_mask
          ≡ (t.w2 >>> 14 + u32 (t.w3 <<< 18)) % 2 ^ 26)
      × (bit_or (t.w3 >>> 8) (b * 2 ^ 24) ≡ t.w3 >>> 8 + b * 2 ^ 24)
  sums = (
    bit_and-mask 26 t.w0,
    joined 6 (t.w0 >>> 26) (t.w1 % 2 ^ 26) (u32 (t.w1 <<< 6)) (omega arith) (omega arith),
    joined 12 (t.w1 >>> 20) (t.w2 % 2 ^ 20) (u32 (t.w2 <<< 12)) (omega arith) (omega arith),
    joined 18 (t.w2 >>> 14) (t.w3 % 2 ^ 14) (u32 (t.w3 <<< 18)) (omega arith) (omega arith),
    bit_or-add_right 24 (t.w3 >>> 8) b (omega arith),
  )

  pub add_block-IsAdded : IsAdded (add_block h t (b * 2 ^ 24))
  unfolding add_block
  add_block-IsAdded = omega (arith, sums)

  pub add_block-value :
      limbs_value (add_block h t (b * 2 ^ 24)) ≡ limbs_value h + words_value t + b * 2 ^ 128
  unfolding add_block
  add_block-value = omega (arith, sums)

abbrev product_bound : ℕ
product_bound = (2 ^ 27 + 64) * 2 ^ 26

product-le : (a b : ℕ) → a < 2 ^ 27 + 64 → b < 2 ^ 26 → a * b ≤ product_bound
product-le a b p q = mul-le-mul (le_of_lt a p) (le_of_lt b q)
  where
    le_of_lt : (a : ℕ) {b : ℕ} → a < b → a ≤ b
    le_of_lt a h = omega arith

-- The sums of the products as they are before any wrap.
abbrev pub raw_products : Limbs → Limbs → Limbs
raw_products h r = record {
  l0 = h.l0 * r.l0 + h.l1 * (r.l4 * 5) + h.l2 * (r.l3 * 5) + h.l3 * (r.l2 * 5) + h.l4 * (r.l1 * 5);
  l1 = h.l0 * r.l1 + h.l1 * r.l0 + h.l2 * (r.l4 * 5) + h.l3 * (r.l3 * 5) + h.l4 * (r.l2 * 5);
  l2 = h.l0 * r.l2 + h.l1 * r.l1 + h.l2 * r.l0 + h.l3 * (r.l4 * 5) + h.l4 * (r.l3 * 5);
  l3 = h.l0 * r.l3 + h.l1 * r.l2 + h.l2 * r.l1 + h.l3 * r.l0 + h.l4 * (r.l4 * 5);
  l4 = h.l0 * r.l4 + h.l1 * r.l3 + h.l2 * r.l2 + h.l3 * r.l1 + h.l4 * r.l0;
}

-- Sums that are far from 2^64.
pub record IsSums (d : Limbs) : Type 0 where
  b0 : d.l0 ≤ 21 * product_bound
  b1 : d.l1 ≤ 21 * product_bound
  b2 : d.l2 ≤ 21 * product_bound
  b3 : d.l3 ≤ 21 * product_bound
  b4 : d.l4 ≤ 5 * product_bound

-- The multiple of the prime that folding leaves out.
abbrev pub folded : Limbs → Limbs → ℕ
folded h r =
    h.l1 * r.l4
    + h.l2 * r.l3
    + h.l3 * r.l2
    + h.l4 * r.l1
    + (h.l2 * r.l4 + h.l3 * r.l3 + h.l4 * r.l2) * 2 ^ 26
    + (h.l3 * r.l4 + h.l4 * r.l3) * 2 ^ 52
    + h.l4 * r.l4 * 2 ^ 78

pub limbs_ext :
    {a b : Limbs}
    → (a.l0 ≡ b.l0) × (a.l1 ≡ b.l1) × (a.l2 ≡ b.l2) × (a.l3 ≡ b.l3) × (a.l4 ≡ b.l4)
    → a ≡ b
limbs_ext e = ground arith

module _ (h r : Limbs) (v : IsAdded h) (w : IsSmall r) where
  pub raw_products-IsSums : IsSums (raw_products h r)
  raw_products-IsSums = omega (
    arith,
    product-le h.l0 r.l0 (omega arith) (omega arith),
    product-le h.l0 r.l1 (omega arith) (omega arith),
    product-le h.l0 r.l2 (omega arith) (omega arith),
    product-le h.l0 r.l3 (omega arith) (omega arith),
    product-le h.l0 r.l4 (omega arith) (omega arith),
    product-le h.l1 r.l0 (omega arith) (omega arith),
    product-le h.l1 r.l1 (omega arith) (omega arith),
    product-le h.l1 r.l2 (omega arith) (omega arith),
    product-le h.l1 r.l3 (omega arith) (omega arith),
    product-le h.l1 r.l4 (omega arith) (omega arith),
    product-le h.l2 r.l0 (omega arith) (omega arith),
    product-le h.l2 r.l1 (omega arith) (omega arith),
    product-le h.l2 r.l2 (omega arith) (omega arith),
    product-le h.l2 r.l3 (omega arith) (omega arith),
    product-le h.l2 r.l4 (omega arith) (omega arith),
    product-le h.l3 r.l0 (omega arith) (omega arith),
    product-le h.l3 r.l1 (omega arith) (omega arith),
    product-le h.l3 r.l2 (omega arith) (omega arith),
    product-le h.l3 r.l3 (omega arith) (omega arith),
    product-le h.l3 r.l4 (omega arith) (omega arith),
    product-le h.l4 r.l0 (omega arith) (omega arith),
    product-le h.l4 r.l1 (omega arith) (omega arith),
    product-le h.l4 r.l2 (omega arith) (omega arith),
    product-le h.l4 r.l3 (omega arith) (omega arith),
    product-le h.l4 r.l4 (omega arith) (omega arith),
  )

  -- The 32- and 64-bit products, sums and multiples of 5 are the exact ones, so that none wraps, for
  -- an accumulator of limbs below 2^27 and a key of limbs below 2^26.
  pub products-raw : products h r ≡ raw_products h r
  unfolding products
  products-raw =
      let small = raw_products-IsSums in
      limbs_ext (
        rw
          (
            mod-eq_of_lt {n = r.l1 * 5} {m = 2 ^ 64} (omega arith),
            mod-eq_of_lt {n = r.l2 * 5} {m = 2 ^ 64} (omega arith),
            mod-eq_of_lt {n = r.l3 * 5} {m = 2 ^ 64} (omega arith),
            mod-eq_of_lt {n = r.l4 * 5} {m = 2 ^ 64} (omega arith),
          )
          (omega (arith, small)))

  pub raw_products-value :
      limbs_value h * limbs_value r ≡ limbs_value (raw_products h r) + folded h r * prime
  raw_products-value = omega arith

module _ (d : Limbs) (v : IsSums d) where
  pub carry-IsCarried : IsCarried (carry d)
  unfolding carry
  carry-IsCarried = omega (arith, bit_and-mask 26)

  -- The last carry, out of the top limb, comes back five times.
  pub carry-value : (c : ℕ) × (limbs_value d ≡ limbs_value (carry d) + c * prime)
  unfolding carry
  carry-value =
      let d1 = d.l1 + d.l0 / 2 ^ 26 in
      let d2 = d.l2 + d1 / 2 ^ 26 in
      let d3 = d.l3 + d2 / 2 ^ 26 in
      let d4 = d.l4 + d3 / 2 ^ 26 in (d4 / 2 ^ 26, omega (arith, bit_and-mask 26))
