-- ===== src/Wire/Exchange.antt =====
-- What one host writes another reads.
use nova_net.Prelude.{ℕ, ◌+◌, ◌^◌, ◌≤◌, ◌<◌, ◌≡◌, ap, ◌∙◌, List, length, arith}
use nova_net.Wire.{
  Endian, IsBytes, store, le_bytes, le_value, nn_write_u32le, nn_write_u64le, nn_read_u32le,
  nn_read_u64le, nn_write_f32le, nn_write_f64le, nn_read_f32le, nn_read_f64le,
}
use nova_net.Wire.Buffer.{load-store, length-store}
use nova_net.Wire.Bytes.{IsBytes-store, IsBytes-le_bytes, write_u32-le_bytes, write_u64-le_bytes}
use nova_net.Wire.Order.{read_u32-of_le_bytes, read_u64-le_value}

read-write_u32 :
    (writer reader : Endian) (buf : List ℕ) (off v : ℕ)
    → v < 2 ^ 32
    → off + 4 ≤ length buf
    → nn_read_u32le reader (nn_write_u32le writer buf off v) off ≡ v
read-write_u32 writer reader buf off v h room =
    ap (λ b. nn_read_u32le reader b off) (write_u32-le_bytes writer buf off v h)
    ∙ read_u32-of_le_bytes reader (store buf off (le_bytes 4 v)) off v h
        (load-store buf off (le_bytes 4 v) room)

read-write_u64 :
    (writer reader : Endian) (buf : List ℕ) (off v : ℕ)
    → v < 2 ^ 64
    → IsBytes buf
    → off + 8 ≤ length buf
    → nn_read_u64le reader (nn_write_u64le writer buf off v) off ≡ v
read-write_u64 writer reader buf off v h b room =
    let out = store buf off (le_bytes 8 v) in
    ap (λ b. nn_read_u64le reader b off) (write_u64-le_bytes writer buf off v h)
    ∙ read_u64-le_value reader out (IsBytes-store buf off (le_bytes 8 v) b (IsBytes-le_bytes 8 v))
        off (omega (arith, length-store buf off (le_bytes 8 v)))
    ∙ ap le_value (load-store buf off (le_bytes 8 v) room)
    ∙ omega (arith, h)

-- A float that one host writes within a buffer of bytes another reads back, whatever the byte orders
-- of the two, for bit patterns of 32 and of 64 bits from which the float can be told.
pub read-write_floats :
    {F G : Type 0} (writer reader : Endian) (to_bits : F → ℕ) (of_bits : ℕ → F) (to_bits' : G → ℕ)
    (of_bits' : ℕ → G) (buf : List ℕ) (off : ℕ) (x : F) (y : G)
    → of_bits (to_bits x) ≡ x
    → of_bits' (to_bits' y) ≡ y
    → to_bits x < 2 ^ 32
    → to_bits' y < 2 ^ 64
    → IsBytes buf
    → off + 8 ≤ length buf
    → (nn_read_f32le reader to_bits of_bits (nn_write_f32le writer to_bits of_bits buf off x) off
        ≡ x)
      × (nn_read_f64le reader to_bits' of_bits'
            (nn_write_f64le writer to_bits' of_bits' buf off y)
            off
          ≡ y)
unfolding nn_read_f32le nn_write_f32le nn_read_f64le nn_write_f64le
read-write_floats writer reader to_bits of_bits to_bits' of_bits' buf off x y e e' p q b room = (
  ap of_bits (read-write_u32 writer reader buf off (to_bits x) p (omega arith)) ∙ e,
  ap of_bits' (read-write_u64 writer reader buf off (to_bits' y) q b room) ∙ e',
)
