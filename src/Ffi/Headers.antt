-- ===== src/Ffi/Headers.antt =====
-- The headers through the entry points: what is written of the arguments is read back in their order.
use mathlib.Core.Option
use nova_net.Prelude.{ℕ, ◌^◌, ◌≤◌, ◌<◌, ◌≡◌, ap, List, length, some, arith}
use nova_net.Wire.{Endian, IsBytes, store}
use nova_net.Wire.Buffer.{load-store, length-store}
use nova_net.Wire.Bytes.{IsBytes-store}
use nova_net.Packet.{packet_header_size, packet_type_max}
use nova_net.Packet.Roundtrip.{packet_read-write}
use nova_net.Fragment.{FragmentHeader, fragment_header_size}
use nova_net.Fragment.Header.{IsHeader, header_bytes, fragment_write-store, read-header_bytes}
use nova_net.Ffi.Scalars.{
  nn_ffi_packet_write, nn_ffi_packet_read, fragment_outputs, nn_ffi_fragment_write,
  nn_ffi_fragment_read,
}

-- The four fields of a packet header, within their ranges, come back from a buffer with room for it,
-- each through its own pointer.
pub ffi_packet_read-write :
    (packet_type seq ack ack_bitfield : ℕ) (buf : List ℕ) (n : ℕ)
    → packet_type ≤ packet_type_max
    → seq < 2 ^ 16
    → ack < 2 ^ 16
    → ack_bitfield < 2 ^ 32
    → packet_header_size ≤ length buf
    → packet_header_size ≤ n
    → (out : List ℕ) × (nn_ffi_packet_write packet_type seq ack ack_bitfield buf
        ≡ some (packet_header_size, out))
      × (nn_ffi_packet_read out n ≡ some (packet_type, seq, ack, ack_bitfield))
unfolding nn_ffi_packet_write nn_ffi_packet_read
ffi_packet_read-write packet_type seq ack ack_bitfield buf n p q r t room long =
    let (out, written, _, got) =
      packet_read-write
        (record {
          packet_type = packet_type;
          sequence_num = seq;
          ack = ack;
          ack_bitfield = ack_bitfield;
        })
        buf n (record { type_fits = p; seq_fits = q; ack_fits = r; bits_fit = t }) room long in
    (
      out,
      written,
      ap (Option.map (λ hdr. (hdr.packet_type, hdr.sequence_num, hdr.ack, hdr.ack_bitfield))) got,
    )

-- The three fields of a fragment header, with an index below the count, come back from a buffer of
-- bytes with room for it, each through its own pointer, between hosts of any byte order and whatever
-- the local of the reader held before.
pub ffi_fragment_read-write :
    (writer reader : Endian) (hdr : FragmentHeader) (message_id frag_index frag_count : ℕ)
    (buf : List ℕ) (n : ℕ)
    → message_id < 2 ^ 32
    → frag_index < frag_count
    → frag_count < 256
    → IsBytes buf
    → fragment_header_size ≤ length buf
    → fragment_header_size ≤ n
    → (out : List ℕ) × (nn_ffi_fragment_write writer message_id frag_index frag_count buf
        ≡ some (fragment_header_size, out))
      × (nn_ffi_fragment_read reader hdr out n ≡ some (message_id, frag_index, frag_count))
unfolding nn_ffi_fragment_write nn_ffi_fragment_read fragment_outputs
ffi_fragment_read-write writer reader hdr message_id frag_index frag_count buf n p q r b room long =
    let h : FragmentHeader = record {
      message_id = message_id;
      fragment_index = frag_index;
      fragment_count = frag_count;
    } in
    let v : IsHeader h = record { id_fits = p; index_in = q; count_fits = r } in
    let out = store buf 0 (header_bytes h) in
    (
      out,
      fragment_write-store writer h buf v room,
      ap fragment_outputs (
          read-header_bytes reader h hdr out n v
            (IsBytes-store buf 0 (header_bytes h) b (omega arith))
            (omega (arith, length-store buf 0 (header_bytes h))) long
            (load-store buf 0 (header_bytes h) room)),
    )
