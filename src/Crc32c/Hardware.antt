-- ===== src/Crc32c/Hardware.antt =====
-- The two implementations of the checksum agree, for instructions that do what the manuals say: the
-- byte instruction is eight steps of the recipe, and the other one takes its eight bytes in turn, the
-- lowest first.
use native.Mathlib.Nat.{mod-eq_of_lt}
use nova_net.Prelude.{
  ℕ, ◌^◌, ◌<◌, ◌≡◌, refl, sym, ap, ◌∙◌, List, [], ◌∷◌, length, bit_xor, u32, not32, arith,
}
use nova_net.Wire.{IsBytes, le_value}
use nova_net.Wire.Order.{IsBytes-take, IsBytes-drop}
use nova_net.Crc32c.Table.{crc_steps}
use nova_net.Crc32c.Linear.{bitwise, bitwise-lt, round-lt, crc32c_software-bitwise}
use nova_net.Crc32c.{hardware_tail, hardware_loop, crc32c_hardware, crc32c_software}

module _ (crc32_u8 crc32_u64 : ℕ → ℕ → ℕ)
    (u8_steps : (crc b : ℕ) → crc < 2 ^ 32 → b < 256 → crc32_u8 crc b ≡ crc_steps 8 (bit_xor crc b))
    (u64_bytes : (crc : ℕ) (bs : List ℕ)
      → crc < 2 ^ 32
      → length bs ≡ 8
      → IsBytes bs
      → crc32_u64 crc (le_value bs) ≡ bitwise crc bs) where
  tail-bitwise :
      (crc : ℕ) (bs : List ℕ)
      → crc < 2 ^ 32
      → IsBytes bs
      → hardware_tail crc32_u8 crc32_u64 crc bs ≡ bitwise crc bs
  unfolding hardware_tail
  tail-bitwise crc [] p h = refl
  tail-bitwise crc (b ∷ bs) p h =
      ap (λ (t : ℕ). hardware_tail crc32_u8 crc32_u64 t bs) (u8_steps crc b p h.0)
      ∙ tail-bitwise (crc_steps 8 (bit_xor crc b)) bs (round-lt crc b p h.0) h.1

  loop-bitwise :
      (crc : ℕ) (bs : List ℕ)
      → crc < 2 ^ 32
      → IsBytes bs
      → hardware_loop crc32_u8 crc32_u64 crc bs ≡ bitwise crc bs
  unfolding hardware_loop
  loop-bitwise crc (b0 ∷ b1 ∷ b2 ∷ b3 ∷ b4 ∷ b5 ∷ b6 ∷ b7 ∷ bs) p h =
      let front = b0 ∷ b1 ∷ b2 ∷ b3 ∷ b4 ∷ b5 ∷ b6 ∷ b7 ∷ [] in
      let g : IsBytes front = IsBytes-take 8 (b0 ∷ b1 ∷ b2 ∷ b3 ∷ b4 ∷ b5 ∷ b6 ∷ b7 ∷ bs) h in
      let rest : IsBytes bs = IsBytes-drop 8 (b0 ∷ b1 ∷ b2 ∷ b3 ∷ b4 ∷ b5 ∷ b6 ∷ b7 ∷ bs) h in
      let small : bitwise crc front < 2 ^ 32 = bitwise-lt crc front p g in
      ap (λ (t : ℕ). hardware_loop crc32_u8 crc32_u64 (u32 t) bs) (u64_bytes crc front p refl g)
      ∙ ap (λ (t : ℕ). hardware_loop crc32_u8 crc32_u64 t bs) (mod-eq_of_lt small)
      ∙ loop-bitwise (bitwise crc front) bs small rest
  loop-bitwise crc bs p h = tail-bitwise crc bs p h

-- For such instructions the two implementations give the same checksum of all bytes from a start
-- below 2^32.
pub crc32c_hardware-software :
    (crc32_u8 crc32_u64 : ℕ → ℕ → ℕ)
    → ((crc b : ℕ) → crc < 2 ^ 32 → b < 256 → crc32_u8 crc b ≡ crc_steps 8 (bit_xor crc b))
    → ((crc : ℕ) (bs : List ℕ)
        → crc < 2 ^ 32
        → length bs ≡ 8
        → IsBytes bs
        → crc32_u64 crc (le_value bs) ≡ bitwise crc bs)
    → (crc : ℕ) (buf : List ℕ) → crc < 2 ^ 32
    → IsBytes buf
    → crc32c_hardware crc32_u8 crc32_u64 crc buf ≡ crc32c_software crc buf
unfolding crc32c_hardware
crc32c_hardware-software u8 u64 e f crc buf p h =
    ap not32 (loop-bitwise u8 u64 e f (not32 crc) buf (omega arith) h)
    ∙ sym (crc32c_software-bitwise crc buf p h)
