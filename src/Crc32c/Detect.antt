-- ===== src/Crc32c/Detect.antt =====
-- The checksum tells apart two buffers that differ in one byte.
use nova_net.Prelude.{
  ℕ, zero, suc, ◌+◌, ◌*◌, ◌/◌, ◌%◌, ◌^◌, ◌<◌, ◌≡◌, ◌≢◌, refl, sym, ap, ◌∙◌, List, [], ◌∷◌, ◌++◌,
  bit_xor, ltb, if◌then◌else◌, not32, arith,
}
use nova_net.Prelude.Xor.{
  bit_xor_comm, bit_xor-zero, bit_xor-lt, bit_xor-shr, bit_xor_cancel, bit_xor_cancel_right,
}
use nova_net.Wire.{IsBytes}
use nova_net.Wire.Bytes.{IsBytes-append}
use nova_net.Crc32c.Table.{polynomial, crc_step, crc_steps}
use nova_net.Crc32c.Linear.{
  crc_step-feedback, feedback, crc_step-lt, bitwise, bitwise-lt, round-lt, crc32c_software-bitwise,
}
use nova_net.Crc32c.{crc32c_software}

-- The register before a step.
undo : ℕ → ℕ
undo y = if ltb y (2 ^ 31) then y * 2 else bit_xor y polynomial * 2 + 1

odd_step-high : (h : ℕ) → h < 2 ^ 31 → bit_xor h polynomial / 2 ^ 31 ≡ 1
odd_step-high h p = bit_xor-shr 31 h polynomial ∙ rw (none_left h p) refl
  where
    none_left : (h : ℕ) → h < 2 ^ 31 → h / 2 ^ 31 ≡ 0
    none_left h p = omega arith

undo-crc_step : (x : ℕ) → x < 2 ^ 32 → undo (crc_step x) ≡ x
unfolding undo feedback
undo-crc_step x p = rw (crc_step-feedback x) (digit (x % 2) (omega arith) refl)
  where
    digit : (d : ℕ) → d < 2 → x % 2 ≡ d → undo (bit_xor (x / 2) (feedback x)) ≡ x
    digit zero q e = ground (arith, bit_xor-zero 32 (x / 2) (omega arith))
    digit (suc zero) q e = ground (
      arith,
      odd_step-high (x / 2) (omega arith),
      bit_xor_cancel 32 (x / 2) polynomial (omega arith) (omega arith),
    )
    digit (suc (suc d)) q e = absurd (omega arith)

crc_step_inj : (x y : ℕ) → x < 2 ^ 32 → y < 2 ^ 32 → crc_step x ≡ crc_step y → x ≡ y
crc_step_inj x y p q e = sym (undo-crc_step x p) ∙ ap undo e ∙ undo-crc_step y q

crc_steps_inj : (n x y : ℕ) → x < 2 ^ 32 → y < 2 ^ 32 → crc_steps n x ≡ crc_steps n y → x ≡ y
unfolding crc_steps
crc_steps_inj zero x y p q e = e
crc_steps_inj (suc n) x y p q e =
    crc_step_inj x y p q
      (crc_steps_inj n (crc_step x) (crc_step y) (crc_step-lt x p) (crc_step-lt y q) e)

-- A round with the same byte keeps two registers apart.
round_inj :
    (x y b : ℕ)
    → x < 2 ^ 32
    → y < 2 ^ 32
    → b < 256
    → crc_steps 8 (bit_xor x b) ≡ crc_steps 8 (bit_xor y b)
    → x ≡ y
round_inj x y b p q h e = bit_xor_cancel_right 32 x y b p q (omega arith) (
    crc_steps_inj 8 (bit_xor x b) (bit_xor y b) (bit_xor-lt 32 x b p (omega arith))
      (bit_xor-lt 32 y b q (omega arith)) e)

bitwise_inj :
    (x y : ℕ) (bs : List ℕ)
    → x < 2 ^ 32
    → y < 2 ^ 32
    → IsBytes bs
    → bitwise x bs ≡ bitwise y bs
    → x ≡ y
bitwise_inj x y [] p q h e = e
bitwise_inj x y (b ∷ bs) p q h e = round_inj x y b p q h.0 (
    bitwise_inj (crc_steps 8 (bit_xor x b)) (crc_steps 8 (bit_xor y b)) bs (round-lt x b p h.0)
      (round-lt y b q h.0) h.1 e)

-- A register distinguishes two bytes.
bytes_inj :
    (x a b : ℕ)
    → x < 2 ^ 32
    → a < 256
    → b < 256
    → crc_steps 8 (bit_xor x a) ≡ crc_steps 8 (bit_xor x b)
    → a ≡ b
bytes_inj x a b p q r e = bit_xor_cancel_right 32 a b x (omega arith) (omega arith) p (
    bit_xor_comm 32 a x (omega arith) p
    ∙ crc_steps_inj 8 (bit_xor x a) (bit_xor x b) (bit_xor-lt 32 x a p (omega arith))
        (bit_xor-lt 32 x b p (omega arith)) e
    ∙ bit_xor_comm 32 x b p (omega arith))

bitwise_differs :
    (x a b : ℕ) (pre post : List ℕ)
    → x < 2 ^ 32
    → IsBytes pre
    → IsBytes post
    → a < 256
    → b < 256
    → bitwise x (pre ++ (a ∷ post)) ≡ bitwise x (pre ++ (b ∷ post))
    → a ≡ b
bitwise_differs x a b [] post p g h q r e = bytes_inj x a b p q r (
    bitwise_inj (crc_steps 8 (bit_xor x a)) (crc_steps 8 (bit_xor x b)) post (round-lt x a p q)
      (round-lt x b p r) h e)
bitwise_differs x a b (c ∷ pre) post p g h q r e =
    bitwise_differs (crc_steps 8 (bit_xor x c)) a b pre post (round-lt x c p g.0) g.1 h q r e

-- Changing one byte of a buffer of bytes, at any place, changes its software checksum from a start
-- below 2^32.
pub crc32c_software-detects_byte :
    (crc a b : ℕ) (pre post : List ℕ)
    → crc < 2 ^ 32
    → IsBytes pre
    → IsBytes post
    → a < 256
    → b < 256
    → a ≢ b
    → crc32c_software crc (pre ++ (a ∷ post)) ≢ crc32c_software crc (pre ++ (b ∷ post))
crc32c_software-detects_byte crc a b pre post p g h q r d e =
    let left : IsBytes (pre ++ (a ∷ post)) = IsBytes-append pre (a ∷ post) g (q, h) in
    let right : IsBytes (pre ++ (b ∷ post)) = IsBytes-append pre (b ∷ post) g (r, h) in
    d (
      bitwise_differs (not32 crc) a b pre post (omega arith) g h q r (
        not32_inj (bitwise (not32 crc) (pre ++ (a ∷ post)))
          (bitwise (not32 crc) (pre ++ (b ∷ post)))
          (bitwise-lt (not32 crc) (pre ++ (a ∷ post)) (omega arith) left)
          (bitwise-lt (not32 crc) (pre ++ (b ∷ post)) (omega arith) right)
          (sym (crc32c_software-bitwise crc (pre ++ (a ∷ post)) p left)
            ∙ e
            ∙ crc32c_software-bitwise crc (pre ++ (b ∷ post)) p right)))
  where
    not32_inj : (x y : ℕ) → x < 2 ^ 32 → y < 2 ^ 32 → not32 x ≡ not32 y → x ≡ y
    not32_inj x y p q e = omega arith
