-- ===== src/Link/Exchange.antt =====
-- What a header from the receiver does at the sender.
use nova_net.Prelude.{
  ℕ, zero, suc, ◌-◌, ◌*◌, ◌/◌, ◌%◌, ◌^◌, ◌≤◌, ◌<◌, ◌≡◌, refl, sym, ap, ◌∙◌, Bool, true, not, ◌&&◌,
  leb, ◌==◌, if◌then◌else◌, some, List, length, bit_and, u32, arith,
}
use native.Mathlib.Nat.{div-one, div-div-eq-div-mul, pow-succ', pow-le-pow_right, mod-eq_of_lt}
use nova_net.Prelude.Bits.{bit, bit-le-one, bit-mod_pow, bit_and-field}
use nova_net.Seq.Order.{behind}
use nova_net.SentBuf.{SentBuf, nn_sent_buf_lookup}
use nova_net.SentBuf.Count.{IsValid}
use nova_net.LossWindow.{LossWindow}
use nova_net.AckBits.{AckState}
use nova_net.AckBits.Window.{acks}
use nova_net.AckProcess.{walk_bit, nn_ack_process, ack_bitfield_bits}
use nova_net.AckProcess.Walk.{after_step}
use nova_net.AckProcess.Effect.{lookup-ack_process}
use nova_net.Packet.{
  PacketHeader, packet_header_size, packet_type_max, nn_packet_write, nn_packet_read,
}
use nova_net.Packet.Roundtrip.{IsHeader, packet_read-write}
use nova_net.Link.{reply_header}

bit-div : (a i : ℕ) → bit a i ≡ a / 2 ^ i % 2
bit-div a zero = rw (div-one a) refl
bit-div a (suc i) =
    bit-div (a / 2) i
    ∙ ap (λ (v : ℕ). v % 2)
        (div-div-eq-div-mul a 2 (2 ^ i) ∙ ap (λ (d : ℕ). a / d) (sym (pow-succ' 2 i)))

-- Digit `i` of the field on the wire.
walk_bit-bit : (f i : ℕ) → i < 32 → walk_bit f i ≡ (bit f i == 1)
walk_bit-bit f i h =
    let le : 2 ^ i ≤ 2 ^ 31 =
      pow-le-pow_right {n = 2} (omega arith) {i = i} {j = 31} (omega arith) in
    let some_digit : 1 ≤ 2 ^ i =
      pow-le-pow_right {n = 2} (omega arith) {i = 0} {j = i} (omega arith) in
    let mask : u32 (1 * 2 ^ i) ≡ 1 * 2 ^ i =
      mod-eq_of_lt {n = 1 * 2 ^ i} {m = 2 ^ 32} (omega arith) in
    let cut : bit_and f (u32 (1 * 2 ^ i)) ≡ bit f i * 2 ^ i =
      ap (bit_and f) mask ∙ bit_and-field 1 i f ∙ ap (λ (v : ℕ). v * 2 ^ i) (sym (bit-div f i)) in
    ap (λ (v : ℕ). not (v == 0)) cut ∙ test (bit f i) (2 ^ i) (bit-le-one f i) some_digit
  where
    test : (b d : ℕ) → b ≤ 1 → 1 ≤ d → not (b * d == 0) ≡ (b == 1)
    test zero d p q = ground arith
    test (suc zero) d p q = ground arith
    test (suc (suc b)) d p q = absurd (omega arith)

-- The 32 digits that are sent are those of the receiver.
walk_bit-u32 : (bits i : ℕ) → i < 32 → walk_bit (u32 bits) i ≡ (bit bits i == 1)
walk_bit-u32 bits i h = walk_bit-bit (u32 bits) i h ∙ ground (arith, bit-mod_pow 32 bits i)

-- Does a header acknowledge `t`?
abbrev pub names : PacketHeader → ℕ → Bool
names hdr t =
    let k = behind t hdr.ack in
    if k == 0 then true else leb k ack_bitfield_bits && walk_bit hdr.ack_bitfield (k - 1)

-- A header of the receiver acknowledges what its state does, up to 32 behind.
pub names-reply_header :
    (st : AckState) (packet_type seq t : ℕ)
    → names (reply_header st packet_type seq) t
      ≡ (leb (behind t st.remote_seq) ack_bitfield_bits && acks st t)
unfolding acks
names-reply_header st packet_type seq t =
    ground (arith, walk_bit-u32 st.ack_bits (behind t st.remote_seq - 1))

pub reply_header-IsHeader :
    (st : AckState) (packet_type seq : ℕ)
    → st.remote_seq < 2 ^ 16
    → packet_type ≤ packet_type_max
    → seq < 2 ^ 16
    → IsHeader (reply_header st packet_type seq)
reply_header-IsHeader st packet_type seq p q r = record {
  type_fits = q;
  seq_fits = r;
  ack_fits = p;
  bits_fit = omega arith;
}

-- A header that is made of a receiver's state, within the ranges of its fields, is written to a buffer
-- with room for it and, at a length that is at least its own, read back as it was written; at a
-- valid sent buffer its acknowledgement removes the entry of every 16-bit number that the state
-- acknowledges and that is at most 32 behind the newest one, adds one nack, modulo 256, to the other
-- entries of this range, and leaves all further ones alone.
pub lookup-reply :
    (st : AckState) (sent : SentBuf) (lw : LossWindow) (packet_type seq now t len : ℕ)
    (buf : List ℕ)
    → st.remote_seq < 2 ^ 16
    → packet_type ≤ packet_type_max
    → seq < 2 ^ 16
    → t < 2 ^ 16
    → IsValid sent
    → packet_header_size ≤ length buf
    → packet_header_size ≤ len
    → let hdr = reply_header st packet_type seq in
      (out : List ℕ) × (nn_packet_write hdr buf ≡ some (packet_header_size, out))
      × (nn_packet_read out len ≡ some hdr)
      × (nn_sent_buf_lookup (nn_ack_process sent lw hdr.ack hdr.ack_bitfield now).sent t ≡ (
          if leb (behind t st.remote_seq) ack_bitfield_bits
          then after_step (acks st t) (nn_sent_buf_lookup sent t)
          else nn_sent_buf_lookup sent t))
unfolding acks
lookup-reply st sent lw packet_type seq now t len buf p q r s v a b =
    let hdr = reply_header st packet_type seq in
    let (out, written, _, got) =
      packet_read-write hdr buf len (reply_header-IsHeader st packet_type seq p q r) a b in
    (
      out,
      written,
      got,
      lookup-ack_process sent lw st.remote_seq (u32 st.ack_bits) now t v p s
          ∙ ground (arith, walk_bit-u32 st.ack_bits (behind t st.remote_seq - 1)),
    )
