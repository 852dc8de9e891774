-- ===== src/Wire.antt =====
-- cbits/nn_wire.h: byte order, little-endian stores and loads, and the bounds test.
-- A buffer is the list of its bytes. `memcpy` of an integer copies its bytes in the host's order,
-- which the parameter `host` names; the code swaps on a big-endian host.
pub mod Order
pub mod Buffer
pub mod Bytes
pub mod Blocks
pub mod Exchange
pub mod Tests
use nova_net.Prelude.{
  ℕ, zero, suc, ◌+◌, ◌*◌, ◌/◌, ◌%◌, ◌^◌, ◌<◌, bit_or, bit_and, Bool, ◌&&◌, List, [], ◌∷◌, ◌++◌,
  length, get_or, set, drop, take, leb, u8, u16, u32, u64, ◌<<<◌, ◌>>>◌,
}

-- `NN_BIG_ENDIAN`
pub data Endian : Type 0 where
  little big : Endian

-- The portable branches of the swap primitives.
unfoldable pub nn_bswap16 : ℕ → ℕ
nn_bswap16 x = u16 (bit_or (x >>> 8) (x <<< 8))

pub nn_bswap32 : ℕ → ℕ
nn_bswap32 x =
    bit_or
      (bit_or (bit_or (bit_and (x >>> 24) 0x000000FF) (bit_and (x >>> 8) 0x0000FF00))
        (bit_and (u32 (x <<< 8)) 0x00FF0000))
      (bit_and (u32 (x <<< 24)) 0xFF000000)

-- The `n` bytes of a value, the lowest first.
abbrev pub le_bytes : ℕ → ℕ → List ℕ
le_bytes zero v = []
le_bytes (suc n) v = (v % 256) ∷ le_bytes n (v / 256)

-- The value of bytes, the lowest first.
abbrev pub le_value : List ℕ → ℕ
le_value [] = 0
le_value (b ∷ bs) = b + le_value bs * 256

pub nn_bswap64 : ℕ → ℕ
nn_bswap64 x =
    bit_or
      (bit_or
        (bit_or
          (bit_or
            (bit_or
              (bit_or
                (bit_or (bit_and (x >>> 56) 0x00000000000000FF)
                  (bit_and (x >>> 40) 0x000000000000FF00))
                (bit_and (x >>> 24) 0x0000000000FF0000))
              (bit_and (x >>> 8) 0x00000000FF000000))
            (bit_and (u64 (x <<< 8)) 0x000000FF00000000))
          (bit_and (u64 (x <<< 24)) 0x0000FF0000000000))
        (bit_and (u64 (x <<< 40)) 0x00FF000000000000))
      (bit_and (u64 (x <<< 56)) 0xFF00000000000000)

-- Each number is a byte.
abbrev pub IsBytes : List ℕ → Type 0
IsBytes [] = Unit
IsBytes (b ∷ bs) = (b < 256) × IsBytes bs

-- The same with the highest byte first.
abbrev pub be_bytes : ℕ → ℕ → List ℕ
be_bytes zero v = []
be_bytes (suc n) v = (v / 256 ^ n % 256) ∷ be_bytes n v

abbrev pub be_value : List ℕ → ℕ
be_value [] = 0
be_value (b ∷ bs) = b * 256 ^ length bs + be_value bs

-- The bytes of an integer of `n` bytes in memory, and the integer of such bytes.
unfoldable pub memory_bytes : Endian → ℕ → ℕ → List ℕ
memory_bytes little n v = le_bytes n v
memory_bytes big n v = be_bytes n v

unfoldable pub memory_value : Endian → List ℕ → ℕ
memory_value little bs = le_value bs
memory_value big bs = be_value bs

-- `buf[off..off + length bs) = bs`. Bytes past the end of the buffer are not written.
abbrev pub store : List ℕ → ℕ → List ℕ → List ℕ
store [] off bs = []
store (x ∷ xs) zero [] = x ∷ xs
store (x ∷ xs) zero (b ∷ bs) = b ∷ store xs zero bs
store (x ∷ xs) (suc off) bs = x ∷ store xs off bs

-- The `n` bytes at `buf + off`.
abbrev pub load : List ℕ → ℕ → ℕ → List ℕ
load buf off n = take n (drop off buf)

module _ (host : Endian) where
  -- The swap that a big-endian host makes around each `memcpy`.
  unfoldable pub to_wire : (ℕ → ℕ) → ℕ → ℕ
  to_wire swap v = elim host [ little ↦ v | big ↦ swap v ]

  pub nn_write_u8 : List ℕ → ℕ → ℕ → List ℕ
  nn_write_u8 buf off val = set buf off val

  unfoldable pub nn_write_u16le : List ℕ → ℕ → ℕ → List ℕ
  nn_write_u16le buf off val = store buf off (memory_bytes host 2 (to_wire nn_bswap16 val))

  pub nn_write_u32le : List ℕ → ℕ → ℕ → List ℕ
  nn_write_u32le buf off val = store buf off (memory_bytes host 4 (to_wire nn_bswap32 val))

  pub nn_write_u64le : List ℕ → ℕ → ℕ → List ℕ
  nn_write_u64le buf off val = store buf off (memory_bytes host 8 (to_wire nn_bswap64 val))

  pub nn_read_u8 : List ℕ → ℕ → ℕ
  nn_read_u8 buf off = get_or buf off 0

  pub nn_read_u16le : List ℕ → ℕ → ℕ
  nn_read_u16le buf off = to_wire nn_bswap16 (memory_value host (load buf off 2))

  pub nn_read_u32le : List ℕ → ℕ → ℕ
  nn_read_u32le buf off = to_wire nn_bswap32 (memory_value host (load buf off 4))

  pub nn_read_u64le : List ℕ → ℕ → ℕ
  nn_read_u64le buf off = to_wire nn_bswap64 (memory_value host (load buf off 8))

-- The floats, by the bit patterns of the type `F` of 32 or 64 bits.
module _ {F : Type 0} (host : Endian) (to_bits : F → ℕ) (of_bits : ℕ → F) where
  pub nn_write_f32le : List ℕ → ℕ → F → List ℕ
  nn_write_f32le buf off val = nn_write_u32le host buf off (to_bits val)

  pub nn_write_f64le : List ℕ → ℕ → F → List ℕ
  nn_write_f64le buf off val = nn_write_u64le host buf off (to_bits val)

  pub nn_read_f32le : List ℕ → ℕ → F
  nn_read_f32le buf off = of_bits (nn_read_u32le host buf off)

  pub nn_read_f64le : List ℕ → ℕ → F
  nn_read_f64le buf off = of_bits (nn_read_u64le host buf off)

-- `nn_buf_has`: the sums are of `size_t`.
pub nn_buf_has : ℕ → ℕ → ℕ → Bool
nn_buf_has buf_len offset need =
    leb (u64 (offset + need)) buf_len && leb offset (u64 (offset + need))
