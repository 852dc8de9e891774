-- ===== src/Crypto/Poly1305/Finish.antt =====
-- The end of the computation: the full reduction, and the sum with the pad.
use nova_net.Prelude.{
  ℕ, ◌+◌, ◌-◌, ◌*◌, ◌/◌, ◌%◌, ◌^◌, ◌<◌, ◌≤◌, ◌≡◌, ap, ◌∙◌, bit_and, bit_or, u32, u64, ◌<<<◌, ◌>>>◌,
  arith,
}
use native.Mathlib.Decide.{dec_lt}
use native.Mathlib.Nat.{mod-eq_of_lt, add-mul-mod_self_right}
use nova_net.Prelude.Bits.{bit_and-mask, bit_and-zero, bit_or-zero, bit_or-add_right, bit_or_comm}
use nova_net.Crypto.Poly1305.{
  Limbs, Words, Poly1305State, full_carry, minus_p, select_limb, select, to_words, add_pad,
  finish_words,
}
use nova_net.Crypto.Poly1305.Block.{
  IsCarried, IsSmall, IsWords, limbs_value, words_value, prime, limbs_ext,
}

module _ (h : Limbs) (v : IsCarried h) where
  full_carry-IsSmall : IsSmall (full_carry h)
  unfolding full_carry
  full_carry-IsSmall = omega (arith, bit_and-mask 26)

  full_carry-value : (c : ℕ) × (limbs_value h ≡ limbs_value (full_carry h) + c * prime)
  unfolding full_carry
  full_carry-value =
      let h2 = h.l2 + h.l1 / 2 ^ 26 in
      let h3 = h.l3 + h2 / 2 ^ 26 in
      let h4 = h.l4 + h3 / 2 ^ 26 in (h4 / 2 ^ 26, omega (arith, bit_and-mask 26))

-- The mask takes all of one side.
select-none : (h g : ℕ) → h < 2 ^ 32 → select_limb 0 h g ≡ h
unfolding select_limb
select-none h g p =
    rw (bit_and-zero g, bit_or-zero (bit_and h (2 ^ 32 - 1)), bit_and-mask 32 h) (mod-eq_of_lt p)

select-all : (h g : ℕ) → g < 2 ^ 32 → select_limb (2 ^ 32 - 1) h g ≡ g
unfolding select_limb
select-all h g p =
    rw
      (
        bit_and-zero h,
        bit_or_comm 0 (bit_and g (2 ^ 32 - 1)),
        bit_or-zero (bit_and g (2 ^ 32 - 1)),
        bit_and-mask 32 g,
      )
      (mod-eq_of_lt p)

module _ (h : Limbs) (v : IsSmall h) where
  -- The top limb of the difference has its sign digit set exactly when `h` is below the prime.
  minus_p-high :
      (limbs_value h < prime → (minus_p h).l4 / 2 ^ 31 ≡ 1)
      × (prime ≤ limbs_value h → (minus_p h).l4 / 2 ^ 31 ≡ 0)
  unfolding minus_p
  minus_p-high = (λ p. omega (arith, bit_and-mask 26), λ p. omega (arith, bit_and-mask 26))

  minus_p-value :
      prime ≤ limbs_value h
      → IsSmall (minus_p h) × (limbs_value (minus_p h) + prime ≡ limbs_value h)
  unfolding minus_p
  minus_p-value p = (omega (arith, bit_and-mask 26), omega (arith, bit_and-mask 26))

or_shifted : (k r q c : ℕ) → c ≡ q * 2 ^ k → r < 2 ^ k → bit_or r c ≡ r + q * 2 ^ k
or_shifted k r q c e h = rw e (bit_or-add_right k r q h)

-- Words of limbs: the value modulo 2^128.
to_words-value :
    (h : Limbs)
    → IsSmall h
    → IsWords (to_words h) × (words_value (to_words h) ≡ limbs_value h % 2 ^ 128)
unfolding to_words
to_words-value h v =
    let acc0 = bit_or h.l0 (u64 (h.l1 <<< 26)) in
    let acc1 = bit_or (acc0 >>> 32) (u64 (h.l2 <<< 20)) in
    let acc2 = bit_or (acc1 >>> 32) (u64 (h.l3 <<< 14)) in
    let acc3 = bit_or (acc2 >>> 32) (u64 (h.l4 <<< 8)) in
    let e0 : acc0 ≡ h.l0 + h.l1 * 2 ^ 26 =
      or_shifted 26 h.l0 h.l1 (u64 (h.l1 <<< 26)) (omega arith) (omega arith) in
    let e1 : acc1 ≡ acc0 >>> 32 + h.l2 * 2 ^ 20 =
      or_shifted 20 (acc0 >>> 32) h.l2 (u64 (h.l2 <<< 20)) (omega arith) (omega (arith, e0)) in
    let e2 : acc2 ≡ acc1 >>> 32 + h.l3 * 2 ^ 14 =
      or_shifted 14 (acc1 >>> 32) h.l3 (u64 (h.l3 <<< 14)) (omega arith) (omega (arith, e0, e1)) in
    let e3 : acc3 ≡ acc2 >>> 32 + h.l4 * 2 ^ 8 =
      or_shifted 8 (acc2 >>> 32) h.l4 (u64 (h.l4 <<< 8)) (omega arith)
        (omega (arith, e0, e1, e2)) in
    (omega (arith, e0, e1, e2, e3), omega (arith, e0, e1, e2, e3))

-- The sum with the pad.
add_pad-value :
    (w pad : Words)
    → IsWords w
    → IsWords pad
    → IsWords (add_pad w pad)
      × (words_value (add_pad w pad) ≡ (words_value w + words_value pad) % 2 ^ 128)
unfolding add_pad
add_pad-value w pad v p = (omega arith, omega arith)

-- Five limbs under one mask.
select-limbs :
    (h g x : Limbs) (mask : ℕ)
    → u32 (g.l4 >>> 31 + 2 ^ 32 - 1) ≡ mask
    → (select_limb mask h.l0 g.l0 ≡ x.l0)
      × (select_limb mask h.l1 g.l1 ≡ x.l1)
      × (select_limb mask h.l2 g.l2 ≡ x.l2)
      × (select_limb mask h.l3 g.l3 ≡ x.l3)
      × (select_limb mask h.l4 g.l4 ≡ x.l4)
    → select h g ≡ x
unfolding select
select-limbs h g x mask m e =
    let under = λ (a b : ℕ). ap (λ (k : ℕ). select_limb k a b) m in
    limbs_ext (
      under h.l0 g.l0 ∙ e.0,
      under h.l1 g.l1 ∙ e.1,
      under h.l2 g.l2 ∙ e.2,
      under h.l3 g.l3 ∙ e.3,
      under h.l4 g.l4 ∙ e.4,
    )

module _ (h : Limbs) (v : IsSmall h) where
  select-below : limbs_value h < prime → select h (minus_p h) ≡ h
  select-below p =
      let g = minus_p h in
      let none = λ (a b : ℕ) (q : a < 2 ^ 26). select-none a b (omega arith) in
      select-limbs h g h 0 (omega (arith, (minus_p-high h v).0 p)) (
        none h.l0 g.l0 v.b0,
        none h.l1 g.l1 v.b1,
        none h.l2 g.l2 v.b2,
        none h.l3 g.l3 v.b3,
        none h.l4 g.l4 v.b4,
      )

  select-above : prime ≤ limbs_value h → select h (minus_p h) ≡ minus_p h
  select-above p =
      let g = minus_p h in
      let w = (minus_p-value h v p).0 in
      let all = λ (a b : ℕ) (q : b < 2 ^ 26). select-all a b (omega arith) in
      select-limbs h g g (2 ^ 32 - 1) (omega (arith, (minus_p-high h v).1 p)) (
        all h.l0 g.l0 w.b0,
        all h.l1 g.l1 w.b1,
        all h.l2 g.l2 w.b2,
        all h.l3 g.l3 w.b3,
        all h.l4 g.l4 w.b4,
      )

  -- The selected limbs are the residue.
  select-value :
      IsSmall (select h (minus_p h)) × (limbs_value (select h (minus_p h)) ≡ limbs_value h % prime)
  select-value = elim (dec_lt (limbs_value h) prime) [
    | yes p ↦ rw (select-below p) (v, omega arith)
    | no p ↦
        let q : prime ≤ limbs_value h = omega arith in
        let (w, e) = minus_p-value h v q in rw (select-above q) (w, omega (arith, e))
  ]

-- The words of the tag: the residue of the accumulator plus the pad, modulo 2^128.
pub finish_words-value :
    (st : Poly1305State)
    → IsCarried st.h
    → IsWords st.pad
    → IsWords (finish_words st)
      × (words_value (finish_words st) ≡ (limbs_value st.h % prime + words_value st.pad) % 2 ^ 128)
unfolding finish_words
finish_words-value st v p =
    let h = full_carry st.h in
    let s = full_carry-IsSmall st.h v in
    let (c, e) = full_carry-value st.h v in
    let (small, residue) = select-value h s in
    let (words, e1) = to_words-value (select h (minus_p h)) small in
    let (w, e2) = add_pad-value (to_words (select h (minus_p h))) st.pad words p in
    let same : limbs_value st.h % prime ≡ limbs_value h % prime =
      ap (λ (n : ℕ). n % prime) e ∙ add-mul-mod_self_right (limbs_value h) c prime in
    (w, omega (arith, e1, e2, residue, same))
