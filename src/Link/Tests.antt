-- ===== src/Link/Tests.antt =====
-- A first exchange: the number 3 is sent, arrives, and is acknowledged.

use mathlib.Core.List.{Memᴰ}
use nova_net.Prelude.{
  ℕ, u64, ◌+◌, ◌^◌, ◌≤◌, ◌≡◌, refl, ap, ◌∙◌, ◌⊎◌, none, some, List, [], ◌∷◌, leb, if◌then◌else◌,
  length, arith,
}
use nova_net.Seq.{nn_seq_gt, nn_seq_diff, slot}
use nova_net.Seq.Order.{behind}
use nova_net.RecvBuf.{nn_recv_buf_init, nn_recv_buf_exists}
use nova_net.AckBits.{AckState, nn_ack_update}
use nova_net.AckBits.Window.{acks}
use nova_net.SentBuf.{SentRecord, nn_sent_buf_init, nn_sent_buf_lookup}
use nova_net.SentBuf.Count.{IsValid, init-IsValid, insert-IsValid}
use nova_net.SentBuf.Lookup.{lookup-insert}
use nova_net.AckProcess.{nn_ack_process, ack_bitfield_bits}
use nova_net.AckProcess.Walk.{after_step}
use nova_net.AckProcess.Effect.{lookup-ack_process}
use nova_net.Packet.{packet_header_size, PacketHeader, nn_packet_write, nn_packet_read}
use nova_net.Packet.Roundtrip.{packet_read-write, IsHeader}
use nova_net.Link.{
  Link, ack_update, init, reply_header, accepts, send, deliver, process, sends, delivers, replies,
  Reach, start, later,
}
use nova_net.Link.Exchange.{lookup-reply}
use nova_net.Link.AckUpdate.{ack_update-nn_ack_update}
use nova_net.Link.Safety.{acknowledged-Known, Reach-tally, zero_acknowledged}

abbrev packet : SentRecord
packet = record {
  channel_id = 1;
  channel_seq = 7;
  send_time_ns = 5000;
  size = 100;
  nack_count = 0;
  occupied = 0;
}

abbrev sent_3 : Link
sent_3 = send init 3 packet

abbrev received_3 : Link
received_3 = deliver 64 sent_3 3

-- The reply is numbered 40 and written into nine bytes.
abbrev buffer : List ℕ
buffer = 0 ∷ 0 ∷ 0 ∷ 0 ∷ 0 ∷ 0 ∷ 0 ∷ 0 ∷ 0 ∷ []

abbrev header : PacketHeader
header = record { packet_type = 1; sequence_num = 40; ack = 3; ack_bitfield = 4 }

received_3-state :
    (received_3.state ≡ record { remote_seq = 3; ack_bits = 4 })
    × (received_3.sent ≡ sent_3.sent)
    × (received_3.packets ≡ 3 ∷ [])
    × (received_3.delivered ≡ 3 ∷ [])
unfolding deliver accepts send nn_seq_diff nn_recv_buf_exists nn_recv_buf_init ack_update nn_seq_gt
    slot nova_net.Prelude.Int.◌-ℤ◌
received_3-state = (refl, refl, refl, refl)

header-IsHeader : IsHeader header
header-IsHeader = record {
  type_fits = omega arith;
  seq_fits = omega arith;
  ack_fits = omega arith;
  bits_fit = omega arith;
}

abbrev state : AckState
state = record { remote_seq = 3; ack_bits = 4 }

sent_3-IsValid : IsValid sent_3.sent
unfolding send
sent_3-IsValid = insert-IsValid 3 packet init-IsValid

lookup-reply_example :
    (out : List ℕ) × (nn_packet_write header buffer ≡ some (packet_header_size, out))
    × (nn_packet_read out 9 ≡ some header)
    × (nn_sent_buf_lookup (nn_ack_process sent_3.sent sent_3.lw 3 4 9000).sent 3 ≡ (
        if leb (behind 3 3) ack_bitfield_bits
        then after_step (acks state 3) (nn_sent_buf_lookup sent_3.sent 3)
        else nn_sent_buf_lookup sent_3.sent 3))
lookup-reply_example =
    lookup-reply state sent_3.sent sent_3.lw 1 40 9000 3 9 buffer (omega arith) (omega arith)
      (omega arith) (omega arith) sent_3-IsValid (omega arith) (omega arith)

ack_update-nn_ack_update_example : ack_update state 70 ≡ nn_ack_update state 70
ack_update-nn_ack_update_example = ack_update-nn_ack_update state 70 (omega arith) (omega arith)

abbrev wrote :
    (out : List ℕ) × (nn_packet_write header buffer ≡ some (packet_header_size, out))
    × (length out ≡ length buffer)
    × (nn_packet_read out 9 ≡ some header)
wrote = packet_read-write header buffer 9 header-IsHeader (omega arith) (omega arith)

abbrev replied_3 : Link
replied_3 = record received_3 { headers = wrote.0 ∷ [] }

received_3-header : reply_header received_3.state 1 40 ≡ header
received_3-header = ap (λ st. reply_header st 1 40) received_3-state.0

replied_3-Reach : Reach 64 replied_3
unfolding deliver accepts send nn_seq_diff nn_recv_buf_exists nn_recv_buf_init ack_update nn_seq_gt
    slot nova_net.Prelude.Int.◌-ℤ◌
replied_3-Reach =
    later (later (later start (sends 3 packet (omega arith))) (delivers 3 (Memᴰ.head refl)))
      (replies 1 40 buffer wrote.0 (omega arith) (omega arith) (omega arith) wrote.1)

-- The entry is there before, and the header names it.
before_3 : nn_sent_buf_lookup replied_3.sent 3 ≡ some (record packet { occupied = 1 })
before_3 =
    ap (λ b. nn_sent_buf_lookup b 3) received_3-state.1
    ∙ (unfold send in lookup-insert nn_sent_buf_init 3 packet 3 init-IsValid.sized)

after_3 : nn_sent_buf_lookup (process replied_3 header 9000).sent 3 ≡ none
unfolding process
after_3 =
    lookup-ack_process replied_3.sent replied_3.lw 3 4 9000 3
      (Reach-tally 64 replied_3 replied_3-Reach).0 (omega arith) (omega arith)

abbrev three : ℕ
three = 3

acknowledged-Known_example : (three ≡ 0) ⊎ (Memᴰ 3 received_3.delivered × Memᴰ 3 received_3.packets)
acknowledged-Known_example =
    acknowledged-Known 64 replied_3 wrote.0 9 9000 3 header (record packet { occupied = 1 })
      replied_3-Reach (Memᴰ.head refl) wrote.3 (omega arith) before_3 after_3

Reach-tally_example :
    IsValid replied_3.sent
    × (replied_3.tally.sends
        ≡ replied_3.sent.count + replied_3.tally.acked + replied_3.tally.evicted
          + replied_3.tally.replaced)
    × (replied_3.totals.sent ≡ u64 replied_3.tally.sends)
    × (replied_3.totals.acked ≡ u64 replied_3.tally.acked)
Reach-tally_example = Reach-tally 64 replied_3 replied_3-Reach

zero_acknowledged_example :
    let l = send init 0 packet in
    (l.delivered ≡ [])
    × (nn_sent_buf_lookup l.sent 0 ≡ some (record packet { occupied = 1 }))
    × (nn_sent_buf_lookup (process l (reply_header l.state 1 40) 9000).sent 0 ≡ none)
zero_acknowledged_example = zero_acknowledged packet 1 40 9000
