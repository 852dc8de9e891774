-- ===== src/Crypto/Poly1305/Clamp.antt =====
-- The clamped key as one number.
use nova_net.Prelude.{
  ℕ, zero, suc, ◌+◌, ◌*◌, ◌/◌, ◌%◌, ◌^◌, ◌<◌, ◌≡◌, sym, ap, ap₂, ◌∙◌, bit_and, bit_or, u32, ◌<<<◌,
  ◌>>>◌, arith,
}
use native.Mathlib.Nat.{pow-suc, mod-eq_of_lt}
use nova_net.Prelude.Bits.{
  bit_and-le, bit_and-half, bit_and-zero, bit_or-add_right, mul-pow-suc, below_one,
}
use nova_net.Crypto.Poly1305.{Words, clamp_limbs}
use nova_net.Crypto.Poly1305.Block.{IsSmall, IsWords, limbs_value, words_value}

-- `&` works on the upper and the lower digits apart.
bit_and-concat :
    (k q r m n : ℕ)
    → r < 2 ^ k
    → n < 2 ^ k
    → bit_and (q * 2 ^ k + r) (m * 2 ^ k + n) ≡ bit_and q m * 2 ^ k + bit_and r n
bit_and-concat zero q r m n p h =
    let none : bit_and r n ≡ 0 = ap (bit_and r) (below_one h) ∙ bit_and-zero r in
    ap₂ bit_and (drop_low q r p) (drop_low m n h) ∙ omega (arith, none)
  where
    drop_low : (a b : ℕ) → b < 2 ^ 0 → a * 2 ^ 0 + b ≡ a
    drop_low a b h = omega arith
bit_and-concat (suc k) q r m n p h = omega (
  arith,
  bit_and-half (q * 2 ^ suc k + r) (m * 2 ^ suc k + n),
  bit_and-half r n,
  mul-pow-suc q k,
  mul-pow-suc m k,
  mul-pow-suc (bit_and q m) k,
  pow-suc 2 k,
  ap₂ bit_and (halved q r) (halved m n),
  bit_and-concat k q (r / 2) m (n / 2) (omega (arith, pow-suc 2 k)) (omega (arith, pow-suc 2 k)),
)
  where
    halved : (a b : ℕ) → (a * 2 ^ suc k + b) / 2 ≡ a * 2 ^ k + b / 2
    halved a b = omega (arith, mul-pow-suc a k)

-- The mask of RFC 8439, section 2.5.
abbrev pub clamp_mask : ℕ
clamp_mask = 0x0ffffffc0ffffffc0ffffffc0fffffff

-- A mask of 26 digits reads the lowest 26.
masked : (m x : ℕ) → m < 2 ^ 26 → bit_and x m ≡ bit_and (x % 2 ^ 26) m
masked m x h =
    let upper : bit_and (x / 2 ^ 26) (m / 2 ^ 26) ≡ 0 =
      ap (bit_and (x / 2 ^ 26)) (none m h) ∙ bit_and-zero (x / 2 ^ 26) in
    let lower : bit_and (x % 2 ^ 26) (m % 2 ^ 26) ≡ bit_and (x % 2 ^ 26) m =
      ap (bit_and (x % 2 ^ 26)) (mod-eq_of_lt h) in
    ap₂ bit_and (split x) (split m)
    ∙ bit_and-concat 26 (x / 2 ^ 26) (x % 2 ^ 26) (m / 2 ^ 26) (m % 2 ^ 26) (omega arith)
        (omega arith)
    ∙ omega (arith, upper, lower)
  where
    none : (m : ℕ) → m < 2 ^ 26 → m / 2 ^ 26 ≡ 0
    none m h = omega arith

    split : (a : ℕ) → a ≡ a / 2 ^ 26 * 2 ^ 26 + a % 2 ^ 26
    split a = omega arith

-- The limb that two words share, before the mask.
joined :
    (k a q c m : ℕ)
    → c ≡ q * 2 ^ k
    → a < 2 ^ k
    → m < 2 ^ 26
    → bit_and (bit_or a c) m ≡ bit_and ((a + c) % 2 ^ 26) m
joined k a q c m e h p =
    ap (λ (x : ℕ). bit_and x m)
      (ap (bit_or a) e ∙ bit_or-add_right k a q h ∙ ap (λ (y : ℕ). a + y) (sym e))
    ∙ masked m (a + c) p

module _ (t : Words) (w : IsWords t) where
  pub clamp-IsSmall : IsSmall (clamp_limbs t)
  unfolding clamp_limbs
  clamp-IsSmall = omega (
    arith,
    bit_and-le 26 t.w0 0x3FFFFFF (omega arith),
    bit_and-le 26 (bit_or (t.w0 >>> 26) (u32 (t.w1 <<< 6))) 0x3FFFF03 (omega arith),
    bit_and-le 26 (bit_or (t.w1 >>> 20) (u32 (t.w2 <<< 12))) 0x3FFC0FF (omega arith),
    bit_and-le 26 (bit_or (t.w2 >>> 14) (u32 (t.w3 <<< 18))) 0x3F03FFF (omega arith),
    bit_and-le 26 (t.w3 >>> 8) 0x00FFFFF (omega arith),
  )

  -- The limbs of the four words.
  x0 : ℕ
  x0 = t.w0 % 2 ^ 26

  x1 : ℕ
  x1 = (t.w0 >>> 26 + u32 (t.w1 <<< 6)) % 2 ^ 26

  x2 : ℕ
  x2 = (t.w1 >>> 20 + u32 (t.w2 <<< 12)) % 2 ^ 26

  x3 : ℕ
  x3 = (t.w2 >>> 14 + u32 (t.w3 <<< 18)) % 2 ^ 26

  x4 : ℕ
  x4 = t.w3 >>> 8

  -- The limbs are those of the sixteen bytes under the mask of the standard.
  pub clamp-value : limbs_value (clamp_limbs t) ≡ bit_and (words_value t) clamp_mask
  unfolding clamp_limbs x0 x1 x2 x3 x4
  clamp-value =
      let low = masked 0x3FFFFFF t.w0 (omega arith) in
      let e1 =
        joined 6 (t.w0 >>> 26) (t.w1 % 2 ^ 26) (u32 (t.w1 <<< 6)) 0x3FFFF03 (omega arith)
          (omega arith) (omega arith) in
      let e2 =
        joined 12 (t.w1 >>> 20) (t.w2 % 2 ^ 20) (u32 (t.w2 <<< 12)) 0x3FFC0FF (omega arith)
          (omega arith) (omega arith) in
      let e3 =
        joined 18 (t.w2 >>> 14) (t.w3 % 2 ^ 14) (u32 (t.w3 <<< 18)) 0x3F03FFF (omega arith)
          (omega arith) (omega arith) in
      let whole : words_value t ≡ (((x4 * 2 ^ 26 + x3) * 2 ^ 26 + x2) * 2 ^ 26 + x1) * 2 ^ 26 + x0 =
        omega arith in
      let c0 =
        bit_and-concat 26 (((x4 * 2 ^ 26 + x3) * 2 ^ 26 + x2) * 2 ^ 26 + x1) x0
          ((((0x00FFFFF * 2 ^ 26 + 0x3F03FFF) * 2 ^ 26) + 0x3FFC0FF) * 2 ^ 26 + 0x3FFFF03) 0x3FFFFFF
          (omega arith) (omega arith) in
      let c1 =
        bit_and-concat 26 ((x4 * 2 ^ 26 + x3) * 2 ^ 26 + x2) x1
          (((0x00FFFFF * 2 ^ 26 + 0x3F03FFF) * 2 ^ 26) + 0x3FFC0FF) 0x3FFFF03 (omega arith)
          (omega arith) in
      let c2 =
        bit_and-concat 26 (x4 * 2 ^ 26 + x3) x2 (0x00FFFFF * 2 ^ 26 + 0x3F03FFF) 0x3FFC0FF
          (omega arith) (omega arith) in
      let c3 = bit_and-concat 26 x4 x3 0x00FFFFF 0x3F03FFF (omega arith) (omega arith) in
      omega (arith, low, e1, e2, e3, c0, c1, c2, c3, ap (λ (v : ℕ). bit_and v clamp_mask) whole)
