-- ===== src/Ffi/Scalars.antt =====
-- The entry points of cbits/nn_ffi.c that take numbers and buffers alone.
use mathlib.Core.Option
use nova_net.Prelude.{ℕ, Bool, true, false, Option, none, some, List}
use nova_net.Prelude.Int.{ℤ}
use nova_net.Wire.{Endian, load}
use nova_net.Seq.{nn_seq_gt, nn_seq_diff}
use nova_net.Packet.{PacketHeader, nn_packet_write, nn_packet_read}
use nova_net.Fragment.{
  FragmentHeader, nn_fragment_write, nn_fragment_read, nn_fragment_count, nn_fragment_build,
}
use nova_net.Crc32c.{Build, nn_crc32c, nn_crc32c_append, nn_crc32c_validate}
use nova_net.Crypto.Aead.{Decrypted, nn_crypto_encrypt, nn_crypto_decrypt}
use nova_net.Crypto.Siphash.{nn_siphash_2_4}
use nova_net.Random.{Outcome, nn_random_bytes}

unfoldable pub nn_ffi_packet_write :
    (packet_type seq ack ack_bitfield : ℕ) → List ℕ → Option (ℕ × List ℕ)
nn_ffi_packet_write packet_type seq ack ack_bitfield buf =
    let hdr : PacketHeader = record {
      packet_type = packet_type;
      sequence_num = seq;
      ack = ack;
      ack_bitfield = ack_bitfield;
    } in
    nn_packet_write hdr buf

-- What is written to the four pointers; `none` is an error, which leaves them alone.
unfoldable pub nn_ffi_packet_read : List ℕ → ℕ → Option (ℕ × ℕ × ℕ × ℕ)
nn_ffi_packet_read buf buf_len =
    Option.map (λ hdr. (hdr.packet_type, hdr.sequence_num, hdr.ack, hdr.ack_bitfield))
      (nn_packet_read buf buf_len)

pub nn_ffi_seq_gt : ℕ → ℕ → Bool
nn_ffi_seq_gt s1 s2 = nn_seq_gt s1 s2

pub nn_ffi_seq_diff : ℕ → ℕ → ℤ
nn_ffi_seq_diff s1 s2 = nn_seq_diff s1 s2

-- The outputs of a call that returns 0, and nothing of one that does not.
unfoldable pub fragment_outputs : Bool × FragmentHeader → Option (ℕ × ℕ × ℕ)
fragment_outputs (true, hdr) = some (hdr.message_id, hdr.fragment_index, hdr.fragment_count)
fragment_outputs (false, hdr) = none

pub nn_ffi_fragment_count : ℕ → ℕ → Option ℕ
nn_ffi_fragment_count msg_len max_payload = nn_fragment_count msg_len max_payload

module _ (host : Endian) where
  unfoldable pub nn_ffi_fragment_write :
      (message_id frag_index frag_count : ℕ) → List ℕ → Option (ℕ × List ℕ)
  nn_ffi_fragment_write message_id frag_index frag_count buf =
      let hdr : FragmentHeader = record {
        message_id = message_id;
        fragment_index = frag_index;
        fragment_count = frag_count;
      } in
      nn_fragment_write host hdr buf

  -- `hdr` is the local of the code before the call, of any content.
  unfoldable pub nn_ffi_fragment_read : FragmentHeader → List ℕ → ℕ → Option (ℕ × ℕ × ℕ)
  nn_ffi_fragment_read hdr buf buf_len = fragment_outputs (nn_fragment_read host buf buf_len hdr)

  pub nn_ffi_fragment_build :
      List ℕ
      → (msg_len message_id frag_index frag_count max_payload : ℕ) → List ℕ
      → Option (ℕ × List ℕ)
  nn_ffi_fragment_build msg msg_len message_id frag_index frag_count max_payload out_buf =
      nn_fragment_build host msg msg_len message_id frag_index frag_count max_payload out_buf

  pub nn_ffi_encrypt : List ℕ → ℕ → ℕ → List ℕ → ℕ → Option (ℤ × List ℕ)
  nn_ffi_encrypt key counter protocol_id buf plain_len =
      nn_crypto_encrypt host key counter protocol_id buf plain_len

  -- The last two arguments are what the two pointers hold before the call.
  pub nn_ffi_decrypt : List ℕ → ℕ → List ℕ → ℕ → ℕ → ℕ → Option Decrypted
  nn_ffi_decrypt key protocol_id buf total_len out_counter out_plain_len =
      nn_crypto_decrypt host key protocol_id buf total_len out_counter out_plain_len

  pub nn_ffi_siphash : List ℕ → List ℕ → ℕ → ℕ
  nn_ffi_siphash key msg msg_len = nn_siphash_2_4 host key msg msg_len

  module _ (crc32_u8 crc32_u64 crc32cb crc32cd : ℕ → ℕ → ℕ) (build : Build) where
    pub nn_ffi_crc32c : List ℕ → ℕ → ℕ
    nn_ffi_crc32c buf len = nn_crc32c crc32_u8 crc32_u64 crc32cb crc32cd build (load buf 0 len)

    pub nn_ffi_crc32c_append : List ℕ → ℕ → List ℕ × ℕ
    nn_ffi_crc32c_append buf data_len =
        nn_crc32c_append host (nn_crc32c crc32_u8 crc32_u64 crc32cb crc32cd build) buf data_len

    pub nn_ffi_crc32c_validate : List ℕ → ℕ → ℕ
    nn_ffi_crc32c_validate buf total_len =
        nn_crc32c_validate host (nn_crc32c crc32_u8 crc32_u64 crc32cb crc32cd build) buf total_len

pub nn_ffi_random_bytes : {W : Type 0} → (W → ℕ → W × Option (List ℕ)) → W → ℕ → Outcome W
nn_ffi_random_bytes getentropy w len = nn_random_bytes getentropy w len
