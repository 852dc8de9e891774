-- ===== src/Packet/Roundtrip.antt =====
-- What `nn_packet_read` makes of what `nn_packet_write` stores, and the other way round.
use nova_net.Prelude.{
  ℕ, ◌+◌, ◌*◌, ◌/◌, ◌%◌, ◌^◌, ◌≤◌, ◌<◌, ◌≡◌, refl, ap, ◌∙◌, List, [], ◌∷◌, length, get_or, none,
  some, arith,
}
use nova_net.Prelude.Bits.{bit_or-add, bit_and-mask}
use nova_net.Wire.{store, IsBytes}
use nova_net.Wire.Buffer.{get_or-store, length-store}
use nova_net.Packet.{
  PacketHeader, header_bytes, header_of, nn_packet_write, nn_packet_read, packet_header_size,
  packet_type_max,
}

-- The values that the fields of the struct and of the wire can hold.
pub record IsHeader (h : PacketHeader) : Type 0 where
  pub type_fits : h.packet_type ≤ packet_type_max
  pub seq_fits : h.sequence_num < 2 ^ 16
  pub ack_fits : h.ack < 2 ^ 16
  pub bits_fit : h.ack_bitfield < 2 ^ 32

-- The bytes as arithmetic.
abbrev byte_sums : PacketHeader → List ℕ
byte_sums h =
    (h.packet_type * 16 + h.sequence_num / 4096)
    ∷ (h.sequence_num / 16 % 256)
    ∷ (h.sequence_num % 16 * 16 + h.ack / 4096)
    ∷ (h.ack / 16 % 256)
    ∷ (h.ack % 16 * 16 + h.ack_bitfield / 2 ^ 28)
    ∷ (h.ack_bitfield / 2 ^ 20 % 256)
    ∷ (h.ack_bitfield / 2 ^ 12 % 256)
    ∷ (h.ack_bitfield / 16 % 256)
    ∷ (h.ack_bitfield % 16 * 16)
    ∷ []

header_bytes-sums : (h : PacketHeader) → IsHeader h → header_bytes h ≡ byte_sums h
unfolding header_bytes
header_bytes-sums h v = ground (
  arith,
  bit_or-add 4 h.packet_type (h.sequence_num / 4096),
  bit_and-mask 4 h.sequence_num,
  bit_or-add 4 (h.sequence_num % 16) (h.ack / 4096),
  bit_and-mask 4 h.ack,
  bit_or-add 4 (h.ack % 16) (h.ack_bitfield / 2 ^ 28),
  bit_and-mask 4 h.ack_bitfield,
)

-- The fields as arithmetic.
header_of-sums :
    (b0 b1 b2 b3 b4 b5 b6 b7 b8 : ℕ)
    → IsBytes (b0 ∷ b1 ∷ b2 ∷ b3 ∷ b4 ∷ b5 ∷ b6 ∷ b7 ∷ b8 ∷ [])
    → header_of b0 b1 b2 b3 b4 b5 b6 b7 b8 ≡ record {
      packet_type = b0 / 16;
      sequence_num = b0 % 16 * 4096 + b1 * 16 + b2 / 16;
      ack = b2 % 16 * 4096 + b3 * 16 + b4 / 16;
      ack_bitfield = b4 % 16 * 2 ^ 28 + b5 * 2 ^ 20 + b6 * 2 ^ 12 + b7 * 16 + b8 / 16;
    }
unfolding header_of
header_of-sums b0 b1 b2 b3 b4 b5 b6 b7 b8 h = ground (
  arith,
  bit_and-mask 4 b0,
  bit_and-mask 4 b2,
  bit_and-mask 4 b4,
  bit_or-add 12 (b0 % 16) (b1 * 16),
  bit_or-add 4 (b0 % 16 * 2 ^ 8 + b1) (b2 / 16),
  bit_or-add 12 (b2 % 16) (b3 * 16),
  bit_or-add 4 (b2 % 16 * 2 ^ 8 + b3) (b4 / 16),
  bit_or-add 28 (b4 % 16) (b5 * 2 ^ 20),
  bit_or-add 20 (b4 % 16 * 2 ^ 8 + b5) (b6 * 2 ^ 12),
  bit_or-add 12 (b4 % 16 * 2 ^ 16 + b5 * 2 ^ 8 + b6) (b7 * 16),
  bit_or-add 4 (b4 % 16 * 2 ^ 24 + b5 * 2 ^ 16 + b6 * 2 ^ 8 + b7) (b8 / 16),
)

length-header_bytes : (h : PacketHeader) → length (header_bytes h) ≡ 9
unfolding header_bytes
length-header_bytes h = refl

header_of-byte_sums :
    (h : PacketHeader) (n : ℕ) (buf : List ℕ)
    → IsHeader h
    → 9 ≤ n
    → ((i : ℕ) → i < 9 → get_or buf i 0 ≡ get_or (byte_sums h) i 0)
    → nn_packet_read buf n ≡ some h
unfolding nn_packet_read
header_of-byte_sums h n buf v p e =
    rw
      (
        e 0 (omega arith),
        e 1 (omega arith),
        e 2 (omega arith),
        e 3 (omega arith),
        e 4 (omega arith),
        e 5 (omega arith),
        e 6 (omega arith),
        e 7 (omega arith),
        e 8 (omega arith),
        header_of-sums (get_or (byte_sums h) 0 0) (get_or (byte_sums h) 1 0)
            (get_or (byte_sums h) 2 0) (get_or (byte_sums h) 3 0) (get_or (byte_sums h) 4 0)
            (get_or (byte_sums h) 5 0) (get_or (byte_sums h) 6 0) (get_or (byte_sums h) 7 0)
            (get_or (byte_sums h) 8 0) (omega arith),
      )
      (ground arith)

-- A header whose fields fit is written to the front of a buffer with room for it, and reading the
-- buffer gives the header back.
pub packet_read-write :
    (h : PacketHeader) (buf : List ℕ) (n : ℕ)
    → IsHeader h
    → packet_header_size ≤ length buf
    → packet_header_size ≤ n
    → (out : List ℕ) × (nn_packet_write h buf ≡ some (packet_header_size, out))
      × (length out ≡ length buf)
      × (nn_packet_read out n ≡ some h)
packet_read-write h buf n v p q =
    let out = store buf 0 (header_bytes h) in
    (
      out,
      unfold nn_packet_write in ground arith,
      length-store buf 0 (header_bytes h),
      header_of-byte_sums h n out v q (λ i r.
          get_or-store buf (header_bytes h) i (omega (arith, length-header_bytes h))
            (omega (arith, length-header_bytes h))
          ∙ ap (λ (bs : List ℕ). get_or bs i 0) (header_bytes-sums h v)),
    )

read_inversion :
    (b0 b1 b2 b3 b4 b5 b6 b7 b8 : ℕ) (rest : List ℕ) (n : ℕ) (h : PacketHeader)
    → IsBytes (b0 ∷ b1 ∷ b2 ∷ b3 ∷ b4 ∷ b5 ∷ b6 ∷ b7 ∷ b8 ∷ [])
    → nn_packet_read (b0 ∷ b1 ∷ b2 ∷ b3 ∷ b4 ∷ b5 ∷ b6 ∷ b7 ∷ b8 ∷ rest) n ≡ some h
    → (packet_header_size ≤ n)
      × (b0 / 16 ≤ packet_type_max)
      × (h ≡ record {
        packet_type = b0 / 16;
        sequence_num = b0 % 16 * 4096 + b1 * 16 + b2 / 16;
        ack = b2 % 16 * 4096 + b3 * 16 + b4 / 16;
        ack_bitfield = b4 % 16 * 2 ^ 28 + b5 * 2 ^ 20 + b6 * 2 ^ 12 + b7 * 16 + b8 / 16;
      })
unfolding nn_packet_read
read_inversion b0 b1 b2 b3 b4 b5 b6 b7 b8 rest n h v e =
    ground (arith, header_of-sums b0 b1 b2 b3 b4 b5 b6 b7 b8 v)

-- A header that is read from bytes fits, and writing it gives the same nine bytes again but for
-- the four bits of padding, which become zero; every other read is refused.
pub packet_write-read :
    (buf : List ℕ) (n : ℕ) (h : PacketHeader)
    → IsBytes buf
    → packet_header_size ≤ length buf
    → nn_packet_read buf n ≡ some h
    → IsHeader h
      × (packet_header_size ≤ n)
      × (header_bytes h
          ≡ get_or buf 0 0
            ∷ get_or buf 1 0
            ∷ get_or buf 2 0
            ∷ get_or buf 3 0
            ∷ get_or buf 4 0
            ∷ get_or buf 5 0
            ∷ get_or buf 6 0
            ∷ get_or buf 7 0
            ∷ (get_or buf 8 0 / 16 * 16)
            ∷ [])
packet_write-read (b0 ∷ b1 ∷ b2 ∷ b3 ∷ b4 ∷ b5 ∷ b6 ∷ b7 ∷ b8 ∷ rest) n h v p e =
    let (le, ok, same) = read_inversion b0 b1 b2 b3 b4 b5 b6 b7 b8 rest n h (omega arith) e in
    let fits : IsHeader h = rw same (omega arith) in
    (fits, le, header_bytes-sums h fits ∙ rw same (ground arith))
packet_write-read _ n h v p e = absurd (omega arith)

pub read_short : (buf : List ℕ) (n : ℕ) → n < packet_header_size → nn_packet_read buf n ≡ none
unfolding nn_packet_read
read_short buf n h = ground arith
