-- ===== src/Link/Safety.antt =====
-- What holds of every state that the two ends can reach.

use mathlib.Core.List.{Memᴰ}
use nova_net.Prelude.{
  ℕ, ◌+◌, ◌-◌, ◌^◌, ◌<◌, ◌≡◌, refl, sym, ap, ◌∙◌, Bool, true, false, ◌&&◌, leb, ◌==◌, if◌then◌else◌,
  ◌⊎◌, inl, inr, Option, none, some, List, [], u64, arith,
}
use nova_net.Seq.Order.{behind}
use nova_net.SentBuf.{SentRecord, nn_sent_buf_init, nn_sent_buf_lookup}
use nova_net.SentBuf.Count.{IsValid, init-IsValid, insert-IsValid}
use nova_net.AckProcess.{walk_bit, ack_bitfield_bits}
use nova_net.AckProcess.Walk.{after_step}
use nova_net.AckProcess.Effect.{lookup-ack_process}
use nova_net.Packet.{PacketHeader, nn_packet_read}
use nova_net.Link.{Link, init, reply_header, send, process, Reach}
use nova_net.Link.Exchange.{names}
use nova_net.SentBuf.Lookup.{lookup-insert}
use nova_net.LossWindow.{nn_loss_window_init}
use nova_net.Link.Sound.{Reach-IsSound}

-- What the walk leaves of an entry, by its distance.
abbrev left : ℕ → ℕ → Option SentRecord → Option SentRecord
left k f o =
    if k == 0
    then none
    else if leb k ack_bitfield_bits
    then after_step (walk_bit f (k - 1)) o
    else o

gone-named :
    (here near received : Bool) (rec : SentRecord)
    → (if here then none else if near then after_step received (some rec) else some rec) ≡ none
    → (if here then true else near && received) ≡ true
gone-named true near received rec e = refl
gone-named false false received rec e = cc
gone-named false true true rec e = refl
gone-named false true false rec e = cc

-- However the network loses, repeats and reorders the packets of both directions: if a header that
-- arrives takes the entry of a 16-bit number out of the sent buffer, then the number is one that was
-- sent and that the receiver has taken in, or the 0 that a receiver starts from.
pub acknowledged-Known :
    (max_seq_dist : ℕ) (l : Link) (bytes : List ℕ) (len now t : ℕ) (hdr : PacketHeader)
    (rec : SentRecord)
    → Reach max_seq_dist l
    → Memᴰ bytes l.headers
    → nn_packet_read bytes len ≡ some hdr
    → t < 2 ^ 16
    → nn_sent_buf_lookup l.sent t ≡ some rec
    → nn_sent_buf_lookup (process l hdr now).sent t ≡ none
    → (t ≡ 0) ⊎ (Memᴰ t l.delivered × Memᴰ t l.packets)
unfolding process
acknowledged-Known max_seq_dist l bytes len now t hdr rec r m e p before after =
    let v = Reach-IsSound r in
    let (fits, known) = v.headers_known bytes len hdr m e in
    let entry = lookup-ack_process l.sent l.lw hdr.ack hdr.ack_bitfield now t v.valid fits p in
    let named : names hdr t ≡ true =
      gone-named (behind t hdr.ack == 0) (leb (behind t hdr.ack) ack_bitfield_bits)
        (walk_bit hdr.ack_bitfield (behind t hdr.ack - 1)) rec
        (ap (left (behind t hdr.ack) hdr.ack_bitfield) (sym before) ∙ sym entry ∙ after) in
    elim (known t p named) [
      | inl zero_seq ↦ inl zero_seq
      | inr m' ↦ inr (m', v.delivered_sent t m')
    ]

-- In every state that can be reached, each packet ever sent is accounted for once: it is in flight,
-- was acknowledged, was evicted by a later one of its slot, or was replaced under its own number; and
-- the counters of the endpoint are what was sent and acknowledged, of 64 bits.
pub Reach-tally :
    (max_seq_dist : ℕ) (l : Link)
    → Reach max_seq_dist l
    → IsValid l.sent
      × (l.tally.sends ≡ l.sent.count + l.tally.acked + l.tally.evicted + l.tally.replaced)
      × (l.totals.sent ≡ u64 l.tally.sends)
      × (l.totals.acked ≡ u64 l.tally.acked)
Reach-tally max_seq_dist l r =
    let v = Reach-IsSound r in (v.valid, v.tallied, v.sent_wraps, v.acked_wraps)

-- The 0 is needed: a receiver that has taken in nothing replies with the number 0, and its header takes
-- packet 0, which is in flight, out of the buffer of a sender that has sent only that.
pub zero_acknowledged :
    (rec : SentRecord) (packet_type seq now : ℕ)
    → let l = send init 0 rec in
      (l.delivered ≡ [])
      × (nn_sent_buf_lookup l.sent 0 ≡ some (record rec { occupied = 1 }))
      × (nn_sent_buf_lookup (process l (reply_header l.state packet_type seq) now).sent 0 ≡ none)
unfolding send process
zero_acknowledged rec packet_type seq now = (
  refl,
  lookup-insert nn_sent_buf_init 0 rec 0 init-IsValid.sized,
  lookup-ack_process _ nn_loss_window_init 0 0 now 0 (insert-IsValid 0 rec init-IsValid)
      (omega arith) (omega arith),
)
