-- ===== src/Link/Sound.antt =====
-- The invariant of the states that the two ends can reach.
use mathlib.Core.List.Memᴰ
use mathlib.Core.List.{Memᴰ}
use nova_net.Prelude.{
  subst, ℕ, ◌+◌, ◌-◌, ◌^◌, ◌≤◌, ◌<◌, ◌≡◌, refl, sym, ap, ◌∙◌, true, Bool-cases, ◌⊎◌, inl, inr, none,
  some, List, ◌∷◌, length, u64, arith,
}
use native.Mathlib.Decide.{dec_lt}
use nova_net.Prelude.Bits.{bit_zero}
use nova_net.Seq.Order.{behind}
use nova_net.SentBuf.{SentRecord}
use nova_net.SentBuf.Count.{IsValid, count-init, init-IsValid, insert-IsValid, count-insert}
use nova_net.AckBits.{AckState}
use nova_net.AckBits.Window.{acks}
use nova_net.AckBits.Sound.{acks-update_sound, remote-update}
use nova_net.AckProcess.Effect.{ack_process-conserves}
use nova_net.RecvBuf.{nn_recv_buf_insert}
use nova_net.Packet.{
  packet_type_max, PacketHeader, packet_header_size, nn_packet_write, nn_packet_read,
}
use nova_net.Packet.Roundtrip.{packet_read-write, read_short}
use nova_net.Link.AckUpdate.{ack_update-nn_ack_update}
use nova_net.Link.{
  Link, ack_update, init, reply_header, accepts, send, deliver, process, Step, sends, delivers,
  replies, processes, Reach, start, later,
}
use nova_net.Link.Exchange.{names, names-reply_header, reply_header-IsHeader}

-- The receiver knows a number: it was delivered, or it is the 0 that the receiver starts from.
abbrev pub Known : List ℕ → ℕ → Type 0
Known delivered t = (t ≡ 0) ⊎ Memᴰ t delivered

Known-cons : (s : ℕ) (delivered : List ℕ) (t : ℕ) → Known delivered t → Known (s ∷ delivered) t
Known-cons s delivered t (inl e) = inl e
Known-cons s delivered t (inr m) = inr (Memᴰ.tail m)

pub record IsSound (l : Link) : Type 0 where
  pub valid : IsValid l.sent
  pub remote : l.state.remote_seq < 2 ^ 16
  pub packets_small : (t : ℕ) → Memᴰ t l.packets → t < 2 ^ 16
  pub delivered_sent : (t : ℕ) → Memᴰ t l.delivered → Memᴰ t l.packets
  pub state_known : (t : ℕ) → t < 2 ^ 16 → acks l.state t ≡ true → Known l.delivered t
  pub headers_known :
      (bytes : List ℕ) (len : ℕ) (hdr : PacketHeader)
      → Memᴰ bytes l.headers
      → nn_packet_read bytes len ≡ some hdr
      → (hdr.ack < 2 ^ 16) × ((t : ℕ) → t < 2 ^ 16 → names hdr t ≡ true → Known l.delivered t)
  pub tallied : l.tally.sends ≡ l.sent.count + l.tally.acked + l.tally.evicted + l.tally.replaced
  pub sent_wraps : l.totals.sent ≡ u64 l.tally.sends
  pub acked_wraps : l.totals.acked ≡ u64 l.tally.acked

init_known : (t : ℕ) → t < 2 ^ 16 → acks init.state t ≡ true → t ≡ 0
unfolding acks
init_known t p e = ground (arith, bit_zero (behind t 0 - 1))

init-IsSound : IsSound init
init-IsSound = record {
  valid = init-IsValid;
  remote = omega arith;
  packets_small = λ t m. absurd (Memᴰ.not-nil m);
  delivered_sent = λ t m. absurd (Memᴰ.not-nil m);
  state_known = λ t p e. inl (init_known t p e);
  headers_known = λ bytes len hdr m e. absurd (Memᴰ.not-nil m);
  tallied = omega (arith, count-init);
  sent_wraps = refl;
  acked_wraps = refl;
}

send-IsSound :
    (l : Link) (seq : ℕ) (rec : SentRecord) → seq < 2 ^ 16 → IsSound l → IsSound (send l seq rec)
unfolding send
send-IsSound l seq rec p v = record {
  valid = insert-IsValid seq rec v.valid;
  remote = v.remote;
  packets_small =
      λ t m. elim (Memᴰ.cases_cons m) [ inl e ↦ rw e p | inr m' ↦ v.packets_small t m' ];
  delivered_sent = λ t m. Memᴰ.tail (v.delivered_sent t m);
  state_known = v.state_known;
  headers_known = v.headers_known;
  tallied = omega (arith, v.tallied, count-insert l.sent seq rec);
  sent_wraps = omega (arith, v.sent_wraps);
  acked_wraps = v.acked_wraps;
}

received-IsSound :
    (l : Link) (seq : ℕ)
    → Memᴰ seq l.packets
    → IsSound l
    → IsSound (record l {
      recv = nn_recv_buf_insert l.recv seq;
      state = ack_update l.state seq;
      delivered = seq ∷ l.delivered;
    })
received-IsSound l seq m v =
    let small = v.packets_small seq m in
    let same = ack_update-nn_ack_update l.state seq v.remote small in
    record {
      valid = v.valid;
      remote = rw same (remote-update l.state seq v.remote small);
      packets_small = v.packets_small;
      delivered_sent = λ t n. elim (Memᴰ.cases_cons n) [
        | inl e ↦ subst (λ k. Memᴰ k l.packets) (sym e) m
        | inr n' ↦ v.delivered_sent t n'
      ];
      state_known = λ t p e.
          elim (acks-update_sound l.state seq t v.remote small p
            (ap (λ st. acks st t) (sym same) ∙ e)) [
              | inl same ↦ inr (Memᴰ.head same)
              | inr before ↦ Known-cons seq l.delivered t (v.state_known t p before)
            ];
      headers_known = λ bytes len hdr n e.
          let (fits, known) = v.headers_known bytes len hdr n e in
          (fits, λ t p f. Known-cons seq l.delivered t (known t p f));
      tallied = v.tallied;
      sent_wraps = v.sent_wraps;
      acked_wraps = v.acked_wraps;
    }

deliver-IsSound :
    (max_seq_dist : ℕ) (l : Link) (seq : ℕ)
    → Memᴰ seq l.packets
    → IsSound l
    → IsSound (deliver max_seq_dist l seq)
unfolding deliver
deliver-IsSound max_seq_dist l seq m v = elim (Bool-cases (accepts max_seq_dist l seq)) [
  | inl e ↦ rw e (received-IsSound l seq m v)
  | inr e ↦ rw e v
]

process-IsSound :
    (l : Link) (hdr : PacketHeader) (now : ℕ) → IsSound l → IsSound (process l hdr now)
unfolding process
process-IsSound l hdr now v =
    let (valid, counted) = ack_process-conserves l.sent l.lw hdr.ack hdr.ack_bitfield now v.valid in
    record {
      valid = valid;
      remote = v.remote;
      packets_small = v.packets_small;
      delivered_sent = v.delivered_sent;
      state_known = v.state_known;
      headers_known = v.headers_known;
      tallied = omega (arith, v.tallied, counted);
      sent_wraps = v.sent_wraps;
      acked_wraps = omega (arith, v.acked_wraps);
    }

-- What is read from a header that was written of a state.
read-reply :
    (st : AckState) (packet_type seq len : ℕ) (buf out : List ℕ) (hdr : PacketHeader)
    → st.remote_seq < 2 ^ 16
    → packet_type ≤ packet_type_max
    → seq < 2 ^ 16
    → packet_header_size ≤ length buf
    → nn_packet_write (reply_header st packet_type seq) buf ≡ some (packet_header_size, out)
    → nn_packet_read out len ≡ some hdr
    → hdr ≡ reply_header st packet_type seq
read-reply st packet_type seq len buf out hdr p q r a w e = elim (dec_lt len packet_header_size) [
  | yes h ↦ absurd (refused (read_short out len h))
  | no h ↦
      let (out', w', _, got) =
        packet_read-write (reply_header st packet_type seq) buf len
          (reply_header-IsHeader st packet_type seq p q r) a (omega arith) in
      cc
]
  where
    refused : nn_packet_read out len ≡ none → ⊥
    refused f = ground arith

replies-IsSound :
    (l : Link) (packet_type seq : ℕ) (buf out : List ℕ)
    → packet_type ≤ packet_type_max
    → seq < 2 ^ 16
    → packet_header_size ≤ length buf
    → nn_packet_write (reply_header l.state packet_type seq) buf ≡ some (packet_header_size, out)
    → IsSound l
    → IsSound (record l { headers = out ∷ l.headers })
replies-IsSound l packet_type seq buf out q r a w v = record {
  valid = v.valid;
  remote = v.remote;
  packets_small = v.packets_small;
  delivered_sent = v.delivered_sent;
  state_known = v.state_known;
  headers_known = λ bytes len hdr m e. elim (Memᴰ.cases_cons m) [
    | inl same ↦
        let read =
          read-reply l.state packet_type seq len buf out hdr v.remote q r a w
            (ap (λ bs. nn_packet_read bs len) (sym same) ∙ e) in
        (
          rw read v.remote,
          λ t p f. v.state_known t p (reply_known l.state packet_type seq t hdr read f),
        )
    | inr m' ↦ v.headers_known bytes len hdr m' e
  ];
  tallied = v.tallied;
  sent_wraps = v.sent_wraps;
  acked_wraps = v.acked_wraps;
}
  where
    reply_known :
        (st : AckState) (packet_type seq t : ℕ) (hdr : PacketHeader)
        → hdr ≡ reply_header st packet_type seq
        → names hdr t ≡ true
        → acks st t ≡ true
    reply_known st packet_type seq t hdr same f =
        let both = names-reply_header st packet_type seq t in
        let named = ap (λ h. names h t) (sym same) ∙ f in ground (arith, both, named)

Step-IsSound : {max_seq_dist : ℕ} {l l' : Link} → Step max_seq_dist l l' → IsSound l → IsSound l'
Step-IsSound {l = l} (sends seq rec p) v = send-IsSound l seq rec p v
Step-IsSound {max_seq_dist} {l = l} (delivers seq m) v = deliver-IsSound max_seq_dist l seq m v
Step-IsSound {l = l} (replies packet_type seq buf out q r a w) v =
    replies-IsSound l packet_type seq buf out q r a w v
Step-IsSound {l = l} (processes bytes len now hdr m e) v = process-IsSound l hdr now v

pub Reach-IsSound : {max_seq_dist : ℕ} {l : Link} → Reach max_seq_dist l → IsSound l
Reach-IsSound start = init-IsSound
Reach-IsSound (later r st) = Step-IsSound st (Reach-IsSound r)
