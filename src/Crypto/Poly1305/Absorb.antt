-- ===== src/Crypto/Poly1305/Absorb.antt =====
-- The loop over blocks against arithmetic modulo the prime.
use nova_net.Prelude.{
  ℕ, zero, suc, ◌+◌, ◌*◌, ◌/◌, ◌%◌, ◌^◌, ◌<◌, ◌≤◌, ◌≡◌, refl, sym, ap, ◌∙◌, List, [], ◌∷◌, take,
  drop, drop-drop, length-drop, length, arith,
}
use native.Mathlib.Nat.{add-mul-mod_self_right}
use nova_net.Wire.{Endian, IsBytes, load, le_value, nn_read_u32le}
use nova_net.Wire.Blocks.{fold_blocks}
use nova_net.Wire.Order.{IsBytes-drop, read_u32-le_value}
use nova_net.Crypto.Poly1305.{
  Limbs, Words, Poly1305State, add_block, products, carry, read_words, absorb, absorb_all,
}
use nova_net.Crypto.Poly1305.Block.{
  IsCarried, IsSmall, IsWords, IsAdded, limbs_value, words_value, prime, folded, raw_products,
  raw_products-IsSums, raw_products-value, products-raw, carry-IsCarried, carry-value,
  add_block-IsAdded, add_block-value,
}

-- A step of the evaluation of a polynomial modulo the prime.
abbrev pub poly_step : ℕ → ℕ → ℕ → ℕ
poly_step acc r n = (acc + n) * r % prime

-- A step depends on the accumulator modulo the prime.
poly_step-mod : (acc r n : ℕ) → poly_step (acc % prime) r n ≡ poly_step acc r n
poly_step-mod acc r n =
    sym (add-mul-mod_self_right ((acc % prime + n) * r) (acc / prime * r) prime)
    ∙ ap (λ (k : ℕ). k % prime) (whole (acc % prime) (acc / prime) r n acc (omega arith))
  where
    whole :
        (low high r n acc : ℕ)
        → acc ≡ high * prime + low
        → (low + n) * r + high * r * prime ≡ (acc + n) * r
    whole low high r n acc e = rw e (omega arith)

module _ (h r : Limbs) (t : Words) (b : ℕ) (v : IsCarried h) (s : IsSmall r) (w : IsWords t)
    (p : b ≤ 1) where
  step-IsCarried : IsCarried (carry (products (add_block h t (b * 2 ^ 24)) r))
  step-IsCarried =
      let g = add_block h t (b * 2 ^ 24) in
      let a : IsAdded g = add_block-IsAdded h t b v w p in
      rw (products-raw g r a s) (carry-IsCarried (raw_products g r) (raw_products-IsSums g r a s))

  step-value :
      limbs_value (carry (products (add_block h t (b * 2 ^ 24)) r)) % prime
      ≡ poly_step (limbs_value h) (limbs_value r) (words_value t + b * 2 ^ 128)
  step-value =
      let g = add_block h t (b * 2 ^ 24) in
      let a : IsAdded g = add_block-IsAdded h t b v w p in
      let (c, e) = carry-value (raw_products g r) (raw_products-IsSums g r a s) in
      rw (products-raw g r a s) (
        congruent (limbs_value (carry (raw_products g r))) (c + folded g r)
          (limbs_value g * limbs_value r) (omega (arith, e, raw_products-value g r a s))
        ∙ ap (λ (k : ℕ). k * limbs_value r % prime) (omega (arith, add_block-value h t b v w p)))
    where
      congruent : (x k y : ℕ) → y ≡ x + k * prime → x % prime ≡ y % prime
      congruent x k y e = sym (add-mul-mod_self_right x k prime) ∙ ap (λ (n : ℕ). n % prime) (sym e)

-- Four words of sixteen bytes.
words_of :
    (bs : List ℕ)
    → 16 ≤ length bs
    → le_value (take 4 bs)
        + le_value (take 4 (drop 4 bs)) * 2 ^ 32
        + le_value (take 4 (drop 8 bs)) * 2 ^ 64
        + le_value (take 4 (drop 12 bs)) * 2 ^ 96
      ≡ le_value (take 16 bs)
words_of (a0 ∷ a1 ∷ a2 ∷ a3 ∷ a4 ∷ a5 ∷ a6 ∷ a7 ∷ a8 ∷ a9 ∷ b0 ∷ b1 ∷ b2 ∷ b3 ∷ b4 ∷ b5 ∷ bs) h =
    omega arith
words_of _ h = absurd (omega arith)

word-lt : (bs : List ℕ) → IsBytes bs → le_value (take 4 bs) < 2 ^ 32
word-lt [] h = omega arith
word-lt (a ∷ []) h = omega arith
word-lt (a ∷ b ∷ []) h = omega arith
word-lt (a ∷ b ∷ c ∷ []) h = omega arith
word-lt (a ∷ b ∷ c ∷ d ∷ bs) h = omega arith

module _ (host : Endian) (buf : List ℕ) (b : IsBytes buf) (off : ℕ)
    (p : off + 16 ≤ length buf) where
  read_word :
      (k : ℕ)
      → k + 4 ≤ 16
      → nn_read_u32le host buf (off + k) ≡ le_value (take 4 (drop k (drop off buf)))
  read_word k h =
      read_u32-le_value host buf b (off + k) (omega arith)
      ∙ ap (λ bs. le_value (take 4 bs)) (sym (drop-drop k off buf))

  -- The words at an offset spell the sixteen bytes there.
  pub read_words-value :
      IsWords (read_words host buf off)
      × (words_value (read_words host buf off) ≡ le_value (load buf off 16))
  unfolding read_words
  read_words-value =
      let ds = drop off buf in
      let d : IsBytes ds = IsBytes-drop off buf b in
      let e0 : nn_read_u32le host buf off ≡ le_value (take 4 ds) =
        read_u32-le_value host buf b off (omega arith) in
      let small = λ (k : ℕ). word-lt (drop k ds) (IsBytes-drop k ds d) in
      (
        omega (
          arith,
          e0,
          read_word 4,
          read_word 8,
          read_word 12,
          word-lt ds d,
          small 4,
          small 8,
          small 12,
        ),
        omega (arith, e0, read_word 4, read_word 8, read_word 12, words_of ds, length-drop off buf),
      )

-- The polynomial that blocks add to, with `b` behind each of them.
abbrev pub poly_blocks : ℕ → ℕ → ℕ → ℕ → List ℕ → ℕ
poly_blocks b r rounds acc bytes =
    fold_blocks 16 (λ (acc : ℕ) block. poly_step acc r (le_value block + b * 2 ^ 128)) rounds acc
      bytes

module _ (host : Endian) (b : ℕ) (p : b ≤ 1) where
  -- The key and the pad are kept.
  pub absorb_all-key :
      (rounds : ℕ) (st : Poly1305State) (bytes : List ℕ)
      → let st' = absorb_all host (b * 2 ^ 24) rounds st bytes in
        (st'.r ≡ st.r) × (st'.pad ≡ st.pad)
  unfolding absorb_all absorb
  absorb_all-key zero st bytes = (refl, refl)
  absorb_all-key (suc rounds) st bytes =
      absorb_all-key rounds (absorb host (b * 2 ^ 24) st bytes) (drop 16 bytes)

  pub absorb_all-value :
      (rounds : ℕ) (st : Poly1305State) (bytes : List ℕ)
      → IsCarried st.h
      → IsSmall st.r
      → IsBytes bytes
      → rounds * 16 ≤ length bytes
      → let st' = absorb_all host (b * 2 ^ 24) rounds st bytes in
        IsCarried st'.h
        × (limbs_value st'.h % prime
            ≡ poly_blocks b (limbs_value st.r) rounds (limbs_value st.h % prime) bytes)
  unfolding absorb_all absorb
  absorb_all-value zero st bytes v s d h = (v, refl)
  absorb_all-value (suc rounds) st bytes v s d h =
      let t = read_words host bytes 0 in
      let (w, e) = read_words-value host bytes d 0 (omega arith) in
      let st1 = absorb host (b * 2 ^ 24) st bytes in
      let v1 : IsCarried st1.h = step-IsCarried st.h st.r t b v s w p in
      let (v', e') =
        absorb_all-value rounds st1 (drop 16 bytes) v1 s (IsBytes-drop 16 bytes d)
          (omega (arith, length-drop 16 bytes)) in
      (
        v',
        e'
            ∙ ap (λ (acc : ℕ). poly_blocks b (limbs_value st.r) rounds acc (drop 16 bytes))
                (step-value st.h st.r t b v s w p
                  ∙ ap
                      (λ (n : ℕ). poly_step (limbs_value st.h) (limbs_value st.r) (n + b * 2 ^ 128))
                      e
                  ∙ sym (
                      poly_step-mod (limbs_value st.h) (limbs_value st.r)
                        (le_value (take 16 bytes) + b * 2 ^ 128))),
      )
