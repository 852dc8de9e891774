-- ===== src/Packet/Tests.antt =====
-- A header written and read.
use nova_net.Prelude.{ℕ, ◌≡◌, refl, List, [], ◌∷◌}
use nova_net.Packet.{PacketHeader, header_bytes}

abbrev header : PacketHeader
header = record { packet_type = 5; sequence_num = 0xABCD; ack = 0x1234; ack_bitfield = 0xDEADBEEF }

abbrev buffer : List ℕ
buffer = 1 ∷ 2 ∷ 3 ∷ 4 ∷ 5 ∷ 6 ∷ 7 ∷ 8 ∷ 9 ∷ 10 ∷ []

abbrev wire : List ℕ
wire = 0x5A ∷ 0xBC ∷ 0xD1 ∷ 0x23 ∷ 0x4D ∷ 0xEA ∷ 0xDB ∷ 0xEE ∷ 0xF7 ∷ []

header_bytes-header :
    header_bytes header ≡ 0x5A ∷ 0xBC ∷ 0xD1 ∷ 0x23 ∷ 0x4D ∷ 0xEA ∷ 0xDB ∷ 0xEE ∷ 0xF0 ∷ []
unfolding header_bytes
header_bytes-header = refl
