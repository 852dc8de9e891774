-- ===== src/Link.antt =====
-- The client of src/NovaNet/Reliability.hs at both ends: two ends that speak over a network which
-- loses, repeats and reorders packets. The sender keeps the sent buffer and the loss window, the
-- receiver the acknowledgement field; the header of cbits/nn_packet.c carries the field back. The steps
-- are what the client does with the C core; the network is the choice of steps.
pub mod AckUpdate
pub mod Exchange
pub mod Sound
pub mod Safety
pub mod Tests
use nova_net.Prelude.{
  Bool, ltb, u64, bit_or, ◌<<<◌, ◌-◌, not, ◌&&◌, leb, ℕ, zero, suc, ◌+◌, ◌^◌, ◌≤◌, ◌<◌, ◌≡◌, List,
  [], ◌∷◌, length, some, u32, if◌then◌else◌,
}
use mathlib.Core.List.{Memᴰ}
use nova_net.SentBuf.{SentRecord, SentBuf, nn_sent_buf_init, nn_sent_buf_insert, nn_sent_buf_exists}
use nova_net.LossWindow.{LossWindow, nn_loss_window_init}
use nova_net.Prelude.Int.{ℤ, pos, negsuc, ltb_ℤ}
use nova_net.Seq.{nn_seq_gt, nn_seq_diff}
use nova_net.RecvBuf.{RecvBuf, nn_recv_buf_init, nn_recv_buf_exists, nn_recv_buf_insert}
use nova_net.AckBits.{AckState, to_u64, ack_bits_window}
use nova_net.Rtt.{Rtt, nn_rtt_init, nn_rtt_update}
use nova_net.AckProcess.{AckRun, nn_ack_process}
use nova_net.Packet.{
  PacketHeader, packet_header_size, packet_type_max, nn_packet_write, nn_packet_read,
}

-- The counters of the endpoint, of 64 bits.
pub record Totals : Type 0 where
  pub sent : ℕ
  pub acked : ℕ
  pub lost : ℕ
  pub bytes_sent : ℕ
  pub bytes_acked : ℕ

-- What became of the packets of the sender, counted without a bound; no code keeps it.
pub record Tally : Type 0 where
  pub sends : ℕ
  pub acked : ℕ
  pub evicted : ℕ
  pub replaced : ℕ

-- `packets` and `headers` are all that was ever put on the two wires, `delivered` the numbers that the
-- receiver has handled; nothing is taken off a wire, so that any of it may arrive late, again or never.
pub record Link : Type 0 where
  pub sent : SentBuf
  pub lw : LossWindow
  pub rtt : Rtt
  pub totals : Totals
  pub tally : Tally
  pub packets : List ℕ
  pub recv : RecvBuf
  pub state : AckState
  pub delivered : List ℕ
  pub headers : List (List ℕ)

abbrev pub init : Link
init = record {
  sent = nn_sent_buf_init;
  lw = nn_loss_window_init;
  rtt = nn_rtt_init;
  totals = record { sent = 0; acked = 0; lost = 0; bytes_sent = 0; bytes_acked = 0 };
  tally = record { sends = 0; acked = 0; evicted = 0; replaced = 0 };
  packets = [];
  recv = nn_recv_buf_init;
  state = record { remote_seq = 0; ack_bits = 0 };
  delivered = [];
  headers = [];
}

-- The header of a packet from the receiver: the field is cut to 32 bits.
abbrev pub reply_header : AckState → ℕ → ℕ → PacketHeader
reply_header st packet_type seq = record {
  packet_type = packet_type;
  sequence_num = seq;
  ack = st.remote_seq;
  ack_bitfield = u32 st.ack_bits;
}

pub send : Link → ℕ → SentRecord → Link
send l seq rec =
    let (sent, evicted) = nn_sent_buf_insert l.sent seq rec in
    let t = l.tally in
    let c = l.totals in
    record l {
      sent = sent;
      totals = record c { sent = u64 (c.sent + 1); bytes_sent = u64 (c.bytes_sent + rec.size) };
      tally = record t {
        sends = t.sends + 1;
        evicted = t.evicted + evicted;
        replaced = t.replaced + (if nn_sent_buf_exists l.sent seq then 1 else 0);
      };
      packets = seq ∷ l.packets;
    }

-- The client's own update of the acknowledgement field.
pub ack_update : AckState → ℕ → AckState
ack_update st seq =
    if nn_seq_gt seq st.remote_seq
    then (let d = to_u64 (nn_seq_diff seq st.remote_seq) in
        record {
          remote_seq = seq;
          ack_bits =
              if ltb d ack_bits_window
              then bit_or (u64 (st.ack_bits <<< d)) (u64 (1 <<< (d - 1)))
              else 0;
        })
    else (let d = to_u64 (nn_seq_diff st.remote_seq seq) in
        record st {
          ack_bits =
              if ltb 0 d && leb d ack_bits_window
              then bit_or st.ack_bits (u64 (1 <<< (d - 1)))
              else st.ack_bits;
        })

-- `|nn_seq_diff|`
abbrev pub magnitude : ℤ → ℕ
magnitude (pos n) = n
magnitude (negsuc n) = n + 1

-- A number too far from the newest one and one that is in the tracker are dropped.
pub accepts : ℕ → Link → ℕ → Bool
accepts max_seq_dist l seq =
    leb (magnitude (nn_seq_diff seq l.state.remote_seq)) max_seq_dist
    && not (nn_recv_buf_exists l.recv seq)

pub deliver : ℕ → Link → ℕ → Link
deliver max_seq_dist l seq =
    if accepts max_seq_dist l seq
    then record l {
      recv = nn_recv_buf_insert l.recv seq;
      state = ack_update l.state seq;
      delivered = seq ∷ l.delivered;
    }
    else l

-- `max 0` of the bit pattern of an `int32_t`.
abbrev pub positive_i32 : ℕ → ℕ
positive_i32 n = if ltb n (2 ^ 31) then n else 0

pub process : Link → PacketHeader → ℕ → Link
process l hdr now_ns =
    let run = nn_ack_process l.sent l.lw hdr.ack hdr.ack_bitfield now_ns in
    let t = l.tally in
    let c = l.totals in
    record l {
      sent = run.sent;
      lw = run.lw;
      rtt =
          if ltb_ℤ run.result.rtt_sample_ns (pos 0)
          then l.rtt
          else nn_rtt_update l.rtt run.result.rtt_sample_ns;
      totals = record c {
        acked = u64 (c.acked + run.result.acked_count);
        bytes_acked = u64 (c.bytes_acked + positive_i32 run.result.acked_bytes);
        lost = u64 (c.lost + run.result.lost_count);
      };
      tally = record t { acked = t.acked + run.result.acked_count };
    }

pub data Step (max_seq_dist : ℕ) (l : Link) : Link → Type 0 where
  sends : (seq : ℕ) (rec : SentRecord) → seq < 2 ^ 16 → Step max_seq_dist l (send l seq rec)
  delivers : (seq : ℕ) → Memᴰ seq l.packets → Step max_seq_dist l (deliver max_seq_dist l seq)
  replies :
      (packet_type seq : ℕ) (buf out : List ℕ)
      → packet_type ≤ packet_type_max
      → seq < 2 ^ 16
      → packet_header_size ≤ length buf
      → nn_packet_write (reply_header l.state packet_type seq) buf ≡ some (packet_header_size, out)
      → Step max_seq_dist l (record l { headers = out ∷ l.headers })
  processes :
      (bytes : List ℕ) (len now_ns : ℕ) (hdr : PacketHeader)
      → Memᴰ bytes l.headers
      → nn_packet_read bytes len ≡ some hdr
      → Step max_seq_dist l (process l hdr now_ns)

pub data Reach (max_seq_dist : ℕ) : Link → Type 0 where
  start : Reach max_seq_dist init
  later : {l l' : Link} → Reach max_seq_dist l → Step max_seq_dist l l' → Reach max_seq_dist l'
