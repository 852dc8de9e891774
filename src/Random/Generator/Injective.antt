-- ===== src/Random/Generator/Injective.antt =====
-- The generator loses nothing of its state: each step can be undone.
use nova_net.Prelude.{ℕ, ◌+◌, ◌-◌, ◌*◌, ◌/◌, ◌^◌, ◌<◌, ◌≡◌, ap, ap₂, ◌∙◌, bit_xor, u64, arith}
use native.Mathlib.Nat.{div-le_self}
use nova_net.Prelude.Xor.{bit_xor-shr, bit_xor_cancel, bit_xor-lt, bit_xor-zero}
use nova_net.Random.Generator.{xor_shift, nn_rng_next}

-- An odd factor and its inverse modulo 2^64.
state_inverse :
    (x : ℕ) → x < 2 ^ 64 → u64 (u64 (x * 6364136223846793005) * 13877824140714322085) ≡ x
state_inverse x h = omega arith

first_inverse : (x : ℕ) → x < 2 ^ 64 → u64 (u64 (x * 0xBF58476D1CE4E5B9) * 10871156337175269513) ≡ x
first_inverse x h = omega arith

second_inverse : (x : ℕ) → x < 2 ^ 64 → u64 (u64 (x * 0x94D049BB133111EB) * 3573116690164977347) ≡ x
second_inverse x h = omega arith

xor_shift-lt : (k z : ℕ) → z < 2 ^ 64 → xor_shift k z < 2 ^ 64
unfolding xor_shift
xor_shift-lt k z h = bit_xor-lt 64 z (z / 2 ^ k) h (omega (arith, div-le_self z (2 ^ k)))

-- A shift of which three leave nothing.
module _ (k z : ℕ) (h : z < 2 ^ 64) (out : z / 2 ^ k / 2 ^ k / 2 ^ k ≡ 0) where
  undo_shift : let y = xor_shift k z in bit_xor y (bit_xor (y / 2 ^ k) (y / 2 ^ k / 2 ^ k)) ≡ z
  unfolding xor_shift
  undo_shift =
      let b = z / 2 ^ k in
      let c = z / 2 ^ k / 2 ^ k in
      let b_small : b < 2 ^ 64 = below (2 ^ k) z h in
      let c_small : c < 2 ^ 64 = below (2 ^ k) b b_small in
      let first : bit_xor z b / 2 ^ k ≡ bit_xor b c = bit_xor-shr k z b in
      let second : bit_xor z b / 2 ^ k / 2 ^ k ≡ c =
        ap (λ (v : ℕ). v / 2 ^ k) first
        ∙ bit_xor-shr k b c
        ∙ ap (bit_xor c) out
        ∙ bit_xor-zero 64 c c_small in
      ap (bit_xor (bit_xor z b)) (ap₂ bit_xor first second ∙ bit_xor_cancel 64 b c b_small c_small)
      ∙ bit_xor_cancel 64 z b h b_small
    where
      below : (d x : ℕ) → x < 2 ^ 64 → x / d < 2 ^ 64
      below d x h = omega (arith, div-le_self x d)

-- The inverse of a step of the finalizer.
abbrev undo : ℕ → ℕ → ℕ
undo k y = bit_xor y (bit_xor (y / 2 ^ k) (y / 2 ^ k / 2 ^ k))

-- The state after the step, and the one before it, from the output.
abbrev pub rng_state : ℕ → ℕ
rng_state out =
    undo 30 (u64 (undo 27 (u64 (undo 31 out * 3573116690164977347)) * 10871156337175269513))

abbrev pub rng_previous : ℕ → ℕ
rng_previous state = u64 ((state + 2 ^ 64 - 1442695040888963407) * 13877824140714322085)

-- The step of the generator on a 64-bit state loses nothing: `rng_state` computes the new state back
-- from the output, and `rng_previous` the old state from the new one.
pub rng_next-inverse :
    (state : ℕ)
    → state < 2 ^ 64
    → let (out, state') = nn_rng_next state in
      (rng_state out ≡ state') × (rng_previous state' ≡ state)
unfolding nn_rng_next
rng_next-inverse state h =
    let s = u64 (state * 6364136223846793005 + 1442695040888963407) in
    let x = xor_shift 30 s in
    let z = u64 (x * 0xBF58476D1CE4E5B9) in
    let x' = xor_shift 27 z in
    let z' = u64 (x' * 0x94D049BB133111EB) in
    let last : undo 31 (xor_shift 31 z') ≡ z' = undo_shift 31 z' (omega arith) (omega arith) in
    let middle : undo 27 x' ≡ z = undo_shift 27 z (omega arith) (omega arith) in
    let first : undo 30 x ≡ s = undo_shift 30 s (omega arith) (omega arith) in
    let before : u64 ((s + 2 ^ 64 - 1442695040888963407) * 13877824140714322085) ≡ state =
      omega arith in
    (
      ap (λ (v : ℕ). undo 30 (u64 (undo 27 (u64 (v * 3573116690164977347)) * 10871156337175269513)))
            last
          ∙ ap (λ (v : ℕ). undo 30 (u64 (undo 27 v * 10871156337175269513)))
              (second_inverse x' (xor_shift-lt 27 z (omega arith)))
          ∙ ap (λ (v : ℕ). undo 30 (u64 (v * 10871156337175269513))) middle
          ∙ ap (undo 30) (first_inverse x (xor_shift-lt 30 s (omega arith)))
          ∙ first,
      before,
    )
