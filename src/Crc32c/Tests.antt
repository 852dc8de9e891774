-- ===== src/Crc32c/Tests.antt =====
-- The checksum of the nine digits, and of a frame.
use nova_net.Prelude.{
  false, ◌==◌, ℕ, ◌∙◌, ◌+◌, ◌*◌, ◌^◌, sym, ap, ◌<◌, ◌≡◌, ◌≢◌, refl, List, [], ◌∷◌, ◌++◌, length,
  bit_xor, not32, u32, arith,
}
use nova_net.Wire.{memory_value, little, big, le_value, le_bytes, IsBytes}
use nova_net.Wire.Order.{le_bytes-le_value}
use nova_net.Crc32c.Table.{crc_steps}
use nova_net.Crc32c.{
  crc32c_software, crc32c_hardware_arm, arm_loop, arm_tail, arm, nn_crc32c, table_loop, crc32c_size,
  nn_crc32c_append, nn_crc32c_validate,
}
use nova_net.Crc32c.Linear.{bitwise}
use nova_net.Crc32c.Detect.{crc32c_software-detects_byte}
use nova_net.Crc32c.Builds.{by_arm, nn_crc32c-bitwise}
use nova_net.Crc32c.Frame.{validate-append}

-- "123456789"
abbrev digits : List ℕ
digits = 0x31 ∷ 0x32 ∷ 0x33 ∷ 0x34 ∷ 0x35 ∷ 0x36 ∷ 0x37 ∷ 0x38 ∷ 0x39 ∷ []

-- The check value of CRC32C.
check_value : not32 (bitwise (not32 0) digits) ≡ 0xE3069283
unfolding crc_steps nova_net.Crc32c.Table.crc_step
check_value = refl

crc32c_software-detects_byte_example :
    crc32c_software 0 ((1 ∷ 2 ∷ []) ++ (3 ∷ 5 ∷ []))
    ≢ crc32c_software 0 ((1 ∷ 2 ∷ []) ++ (4 ∷ 5 ∷ []))
crc32c_software-detects_byte_example =
    crc32c_software-detects_byte 0 3 4 (1 ∷ 2 ∷ []) (5 ∷ []) (omega arith) (omega arith)
      (omega arith) (omega arith) (omega arith) (omega arith)

-- Instructions as the manuals describe them.
abbrev byte_instruction : ℕ → ℕ → ℕ
byte_instruction crc b = crc_steps 8 (bit_xor crc b)

abbrev word_instruction : ℕ → ℕ → ℕ
word_instruction crc w = bitwise crc (le_bytes 8 w)

word_bytes :
    (crc : ℕ) (bs : List ℕ)
    → crc < 2 ^ 32
    → length bs ≡ 8
    → IsBytes bs
    → word_instruction crc (le_value bs) ≡ bitwise crc bs
word_bytes crc bs p n h =
    ap (λ (k : ℕ). bitwise crc (le_bytes k (le_value bs))) (sym n)
    ∙ ap (bitwise crc) (le_bytes-le_value bs h)

nn_crc32c-bitwise_example :
    nn_crc32c byte_instruction word_instruction byte_instruction word_instruction
      (arm little)
      digits
    ≡ not32 (bitwise (not32 0) digits)
nn_crc32c-bitwise_example =
    nn_crc32c-bitwise byte_instruction word_instruction byte_instruction word_instruction
      (λ crc b p q. refl) word_bytes (λ crc b p q. refl) word_bytes (arm little) digits by_arm
      (omega arith)

-- On a big-endian ARM host the words are read with their bytes reversed.
arm_big_differs :
    (nn_crc32c byte_instruction word_instruction byte_instruction word_instruction (arm big) digits
      == 0xE3069283)
    ≡ false
unfolding nn_crc32c crc32c_hardware_arm arm_loop arm_tail crc_steps nova_net.Crc32c.Table.crc_step
    memory_value
arm_big_differs = refl

-- A sum of 32 bits, and a buffer with room behind two bytes.
abbrev sum : List ℕ → ℕ
sum [] = 7
sum (b ∷ bs) = u32 (sum bs * 31 + b)

sum-lt : (bs : List ℕ) → sum bs < 2 ^ 32
sum-lt [] = omega arith
sum-lt (b ∷ bs) = omega arith

abbrev buffer : List ℕ
buffer = 1 ∷ 2 ∷ 0 ∷ 0 ∷ 0 ∷ 0 ∷ 0 ∷ []

validate-append_example :
    nn_crc32c_validate big sum
      (nn_crc32c_append big sum buffer 2).0
      (nn_crc32c_append big sum buffer 2).1
    ≡ 2
validate-append_example = validate-append big sum sum-lt buffer 2 (omega arith)
