-- ===== src/Crc32c.antt =====
-- cbits/nn_crc32c.c: the checksum by table and by the processor's instructions, appended to a
-- buffer and checked. A buffer `buf[0..len)` is given as the list of its bytes where only its bytes
-- count.
pub mod Table
pub mod Linear
pub mod Detect
pub mod Hardware
pub mod Builds
pub mod Frame
pub mod Tests
use nova_net.Prelude.{
  ℕ, ◌+◌, ◌-◌, List, [], ◌∷◌, get_or, bit_and, bit_xor, Bool, ltb, ◌==◌, if◌then◌else◌, u32, not32,
  ◌>>>◌,
}
use nova_net.Wire.{Endian, load, le_value, memory_value, nn_write_u32le, nn_read_u32le}
use Table.{crc32c_table}

-- `NN_CRC32C_SIZE`
abbrev pub crc32c_size : ℕ
crc32c_size = 4

-- One round of the loop of the software fallback, and the loop.
pub table_round : ℕ → ℕ → ℕ
table_round crc b = bit_xor (get_or crc32c_table (bit_and (bit_xor crc b) 0xFF) 0) (crc >>> 8)

pub table_loop : ℕ → List ℕ → ℕ
table_loop crc [] = crc
table_loop crc (b ∷ bs) = table_loop (table_round crc b) bs

pub crc32c_software : ℕ → List ℕ → ℕ
crc32c_software crc buf = not32 (table_loop (not32 crc) buf)

-- The instructions of the processor: the checksum of one byte, and of eight.
module _ (crc32_u8 crc32_u64 : ℕ → ℕ → ℕ) where
  pub hardware_tail : ℕ → List ℕ → ℕ
  hardware_tail crc [] = crc
  hardware_tail crc (b ∷ bs) = hardware_tail (crc32_u8 crc b) bs

  pub hardware_loop : ℕ → List ℕ → ℕ
  hardware_loop crc (b0 ∷ b1 ∷ b2 ∷ b3 ∷ b4 ∷ b5 ∷ b6 ∷ b7 ∷ bs) =
      hardware_loop (u32 (crc32_u64 crc (le_value (b0 ∷ b1 ∷ b2 ∷ b3 ∷ b4 ∷ b5 ∷ b6 ∷ b7 ∷ [])))) bs
  hardware_loop crc bs = hardware_tail crc bs

  pub crc32c_hardware : ℕ → List ℕ → ℕ
  crc32c_hardware crc buf = not32 (hardware_loop (not32 crc) buf)

-- The same loops over the instructions of ARM, whose word is read in the byte order of the host.
module _ (crc32cb crc32cd : ℕ → ℕ → ℕ) where
  pub arm_tail : ℕ → List ℕ → ℕ
  arm_tail crc [] = crc
  arm_tail crc (b ∷ bs) = arm_tail (crc32cb crc b) bs

  pub arm_loop : Endian → ℕ → List ℕ → ℕ
  arm_loop host crc (b0 ∷ b1 ∷ b2 ∷ b3 ∷ b4 ∷ b5 ∷ b6 ∷ b7 ∷ bs) =
      arm_loop host (crc32cd crc (memory_value host (b0 ∷ b1 ∷ b2 ∷ b3 ∷ b4 ∷ b5 ∷ b6 ∷ b7 ∷ [])))
        bs
  arm_loop host crc bs = arm_tail crc bs

  pub crc32c_hardware_arm : Endian → ℕ → List ℕ → ℕ
  crc32c_hardware_arm host crc buf = not32 (arm_loop host (not32 crc) buf)

-- What the build selects: the table, or the instructions of one of the processors.
pub data Build : Type 0 where
  software x86 : Build
  arm : Endian → Build

module _ (crc32_u8 crc32_u64 crc32cb crc32cd : ℕ → ℕ → ℕ) where
  pub nn_crc32c : Build → List ℕ → ℕ
  nn_crc32c software buf = crc32c_software 0 buf
  nn_crc32c x86 buf = crc32c_hardware crc32_u8 crc32_u64 0 buf
  nn_crc32c (arm host) buf = crc32c_hardware_arm crc32cb crc32cd host 0 buf

-- `checksum` is `nn_crc32c` in the build at hand.
module _ (host : Endian) (checksum : List ℕ → ℕ) where
  -- The buffer and the new total length.
  pub nn_crc32c_append : List ℕ → ℕ → List ℕ × ℕ
  nn_crc32c_append buf data_len =
      (nn_write_u32le host buf data_len (checksum (load buf 0 data_len)), data_len + crc32c_size)

  pub nn_crc32c_validate : List ℕ → ℕ → ℕ
  nn_crc32c_validate buf total_len =
      let payload_len = total_len - crc32c_size in
      let expected = nn_read_u32le host buf payload_len in
      let actual = checksum (load buf 0 payload_len) in
      if ltb total_len crc32c_size then 0 else if actual == expected then payload_len else 0
