-- ===== src/Packet.antt =====
-- cbits/nn_packet.c: the packet header of 68 bits in nine bytes.
pub mod Roundtrip
pub mod Tests
use nova_net.Prelude.{
  ℕ, List, [], ◌∷◌, get_or, Option, none, some, bit_and, bit_or, ltb, if◌then◌else◌, u8, u16, u32,
  ◌<<<◌, ◌>>>◌,
}
use nova_net.Wire.{store}

-- `NN_PACKET_HEADER_SIZE`, `NN_PACKET_TYPE_MAX` and `PACKET_TYPE_SHIFT`
abbrev pub packet_header_size : ℕ
packet_header_size = 9

abbrev pub packet_type_max : ℕ
packet_type_max = 7

abbrev pub packet_type_shift : ℕ
packet_type_shift = 4

pub record PacketHeader : Type 0 where
  pub packet_type : ℕ
  pub sequence_num : ℕ
  pub ack : ℕ
  pub ack_bitfield : ℕ

-- The nine bytes that `nn_packet_write` stores.
pub header_bytes : PacketHeader → List ℕ
header_bytes hdr =
    let pt = hdr.packet_type in
    let sn = hdr.sequence_num in
    let ak = hdr.ack in
    let abf = hdr.ack_bitfield in
    u8 (bit_or (pt <<< packet_type_shift) (sn >>> 12))
    ∷ u8 (sn >>> 4)
    ∷ u8 (bit_or (bit_and sn 0x0F <<< 4) (ak >>> 12))
    ∷ u8 (ak >>> 4)
    ∷ u8 (bit_or (bit_and ak 0x0F <<< 4) (abf >>> 28))
    ∷ u8 (abf >>> 20)
    ∷ u8 (abf >>> 12)
    ∷ u8 (abf >>> 4)
    ∷ u8 (bit_and abf 0x0F <<< 4)
    ∷ []

-- `none` is the -1 of the code, which writes nothing; else the returned length and the buffer.
pub nn_packet_write : PacketHeader → List ℕ → Option (ℕ × List ℕ)
nn_packet_write hdr buf =
    if ltb packet_type_max hdr.packet_type
    then none
    else some (packet_header_size, store buf 0 (header_bytes hdr))

-- The fields of nine bytes.
pub header_of : (b0 b1 b2 b3 b4 b5 b6 b7 b8 : ℕ) → PacketHeader
header_of b0 b1 b2 b3 b4 b5 b6 b7 b8 = record {
  packet_type = b0 >>> packet_type_shift;
  sequence_num = u16 (bit_or (bit_or (u16 (bit_and b0 0x0F) <<< 12) (b1 <<< 4)) (u16 (b2 >>> 4)));
  ack = u16 (bit_or (bit_or (u16 (bit_and b2 0x0F) <<< 12) (b3 <<< 4)) (u16 (b4 >>> 4)));
  ack_bitfield =
      bit_or
        (bit_or
          (bit_or (bit_or (u32 (u32 (bit_and b4 0x0F) <<< 28)) (u32 (b5 <<< 20))) (u32 (b6 <<< 12)))
          (u32 (b7 <<< 4)))
        (u32 (b8 >>> 4));
}

-- `none` is the -1 of the code, which leaves `*out` alone.
pub nn_packet_read : List ℕ → ℕ → Option PacketHeader
nn_packet_read buf buf_len =
    if ltb buf_len packet_header_size
    then none
    else (let b = (λ (i : ℕ). get_or buf i 0) in
        let hdr = header_of (b 0) (b 1) (b 2) (b 3) (b 4) (b 5) (b 6) (b 7) (b 8) in
        if ltb packet_type_max hdr.packet_type then none else some hdr)
