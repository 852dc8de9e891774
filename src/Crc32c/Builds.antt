-- ===== src/Crc32c/Builds.antt =====
-- `nn_crc32c` of every build against the recipe.
use nova_net.Prelude.{ℕ, ◌^◌, ◌<◌, ◌≡◌, refl, ap, ◌∙◌, List, [], ◌∷◌, length, bit_xor, not32, arith}
use nova_net.Wire.{Endian, little, IsBytes, le_value, memory_value}
use nova_net.Wire.Order.{IsBytes-take, IsBytes-drop}
use nova_net.Crc32c.Table.{crc_steps}
use nova_net.Crc32c.Linear.{bitwise, bitwise-lt, round-lt, crc32c_software-bitwise}
use nova_net.Crc32c.Hardware.{crc32c_hardware-software}
use nova_net.Crc32c.{arm_tail, arm_loop, crc32c_hardware_arm, Build, software, x86, arm, nn_crc32c}

-- A byte instruction is eight steps of the recipe.
abbrev pub StepsByte : (ℕ → ℕ → ℕ) → Type 0
StepsByte u8 = (crc b : ℕ) → crc < 2 ^ 32 → b < 256 → u8 crc b ≡ crc_steps 8 (bit_xor crc b)

-- A word instruction takes its eight bytes in turn, the lowest first.
abbrev pub StepsWord : (ℕ → ℕ → ℕ) → Type 0
StepsWord u64 =
    (crc : ℕ) (bs : List ℕ)
    → crc < 2 ^ 32
    → length bs ≡ 8
    → IsBytes bs
    → u64 crc (le_value bs) ≡ bitwise crc bs

module _ (crc32cb crc32cd : ℕ → ℕ → ℕ) (u8_steps : StepsByte crc32cb)
    (u64_bytes : StepsWord crc32cd) where
  tail-bitwise :
      (crc : ℕ) (bs : List ℕ)
      → crc < 2 ^ 32
      → IsBytes bs
      → arm_tail crc32cb crc32cd crc bs ≡ bitwise crc bs
  unfolding arm_tail
  tail-bitwise crc [] p h = refl
  tail-bitwise crc (b ∷ bs) p h =
      ap (λ (t : ℕ). arm_tail crc32cb crc32cd t bs) (u8_steps crc b p h.0)
      ∙ tail-bitwise (crc_steps 8 (bit_xor crc b)) bs (round-lt crc b p h.0) h.1

  loop-bitwise :
      (crc : ℕ) (bs : List ℕ)
      → crc < 2 ^ 32
      → IsBytes bs
      → arm_loop crc32cb crc32cd little crc bs ≡ bitwise crc bs
  unfolding arm_loop memory_value
  loop-bitwise crc (b0 ∷ b1 ∷ b2 ∷ b3 ∷ b4 ∷ b5 ∷ b6 ∷ b7 ∷ bs) p h =
      let front = b0 ∷ b1 ∷ b2 ∷ b3 ∷ b4 ∷ b5 ∷ b6 ∷ b7 ∷ [] in
      let g : IsBytes front = IsBytes-take 8 (b0 ∷ b1 ∷ b2 ∷ b3 ∷ b4 ∷ b5 ∷ b6 ∷ b7 ∷ bs) h in
      let rest : IsBytes bs = IsBytes-drop 8 (b0 ∷ b1 ∷ b2 ∷ b3 ∷ b4 ∷ b5 ∷ b6 ∷ b7 ∷ bs) h in
      let small : bitwise crc front < 2 ^ 32 = bitwise-lt crc front p g in
      ap (λ (t : ℕ). arm_loop crc32cb crc32cd little t bs) (u64_bytes crc front p refl g)
      ∙ loop-bitwise (bitwise crc front) bs small rest
  loop-bitwise crc bs p h = tail-bitwise crc bs p h

-- The builds that the theorem is about: on ARM, a host that keeps its low byte first.
pub data IsLittle : Build → Type 0 where
  by_software : IsLittle software
  by_x86 : IsLittle x86
  by_arm : IsLittle (arm little)

-- With instructions that do what the manuals say, each build gives the same checksum of a buffer of
-- bytes, that of the recipe bit by bit: the table, the instructions of x86, and those of ARM on a little-endian host.
pub nn_crc32c-bitwise :
    (crc32_u8 crc32_u64 crc32cb crc32cd : ℕ → ℕ → ℕ)
    → StepsByte crc32_u8
    → StepsWord crc32_u64
    → StepsByte crc32cb
    → StepsWord crc32cd
    → (build : Build) (buf : List ℕ) → IsLittle build
    → IsBytes buf
    → nn_crc32c crc32_u8 crc32_u64 crc32cb crc32cd build buf ≡ not32 (bitwise (not32 0) buf)
unfolding nn_crc32c crc32c_hardware_arm
nn_crc32c-bitwise u8 u64 cb cd e f e' f' software buf by_software h =
    crc32c_software-bitwise 0 buf (omega arith) h
nn_crc32c-bitwise u8 u64 cb cd e f e' f' x86 buf by_x86 h =
    crc32c_hardware-software u8 u64 e f 0 buf (omega arith) h
    ∙ crc32c_software-bitwise 0 buf (omega arith) h
nn_crc32c-bitwise u8 u64 cb cd e f e' f' (arm little) buf by_arm h =
    ap not32 (loop-bitwise cb cd e' f' (not32 0) buf (omega arith) h)
nn_crc32c-bitwise u8 u64 cb cd e f e' f' (arm nova_net.Wire.big) buf i h = elim i [ ]
