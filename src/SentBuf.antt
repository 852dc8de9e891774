-- ===== src/SentBuf.antt =====
-- `nn_sent_buf` of cbits/nn_seq.h and nn_seq.c: the packets in flight, in a ring of 256 slots.
pub mod Lookup
pub mod Count
pub mod Tests
use nova_net.Prelude.{
  ℕ, ◌+◌, ◌-◌, Bool, true, false, not, ◌&&◌, List, get_or, set, replicate, ◌==◌, if◌then◌else◌,
  Option, none, some,
}
use nova_net.Seq.{ring_size, slot}

-- `nn_sent_record`
pub record SentRecord : Type 0 where
  pub channel_id : ℕ
  pub channel_seq : ℕ
  pub send_time_ns : ℕ
  pub size : ℕ
  pub nack_count : ℕ
  pub occupied : ℕ

pub record SentBuf : Type 0 where
  pub entries : List SentRecord
  pub seq_nums : List ℕ
  pub count : ℕ

-- A record of zero bytes.
abbrev pub empty_record : SentRecord
empty_record = record {
  channel_id = 0;
  channel_seq = 0;
  send_time_ns = 0;
  size = 0;
  nack_count = 0;
  occupied = 0;
}

pub nn_sent_buf_init : SentBuf
nn_sent_buf_init = record {
  entries = replicate ring_size empty_record;
  seq_nums = replicate ring_size 0;
  count = 0;
}

-- `entries[idx]`, and the test that each function makes of it.
abbrev pub entry : SentBuf → ℕ → SentRecord
entry buf seq = get_or buf.entries (slot seq) empty_record

abbrev pub is_set : ℕ → Bool
is_set flag = not (flag == 0)

abbrev pub tracks : SentBuf → ℕ → Bool
tracks buf seq = is_set (entry buf seq).occupied && get_or buf.seq_nums (slot seq) 0 == seq

-- The new buffer, and the evicted count. `count` is an `int` of at most 256.
pub nn_sent_buf_insert : SentBuf → ℕ → SentRecord → SentBuf × ℕ
nn_sent_buf_insert buf seq rec =
    let was_occupied = is_set (entry buf seq).occupied in
    let old_seq = get_or buf.seq_nums (slot seq) 0 in
    (
      record {
        entries = set buf.entries (slot seq) (record rec { occupied = 1 });
        seq_nums = set buf.seq_nums (slot seq) seq;
        count = if was_occupied then buf.count else buf.count + 1;
      },
      if was_occupied && not (old_seq == seq) then 1 else 0,
    )

-- `none` is NULL.
pub nn_sent_buf_lookup : SentBuf → ℕ → Option SentRecord
nn_sent_buf_lookup buf seq = if tracks buf seq then some (entry buf seq) else none

-- What is written through the pointer of `nn_sent_buf_lookup_mut`, when it is not NULL.
pub nn_sent_buf_lookup_mut : SentBuf → ℕ → (SentRecord → SentRecord) → SentBuf
nn_sent_buf_lookup_mut buf seq change =
    if tracks buf seq
    then record buf { entries = set buf.entries (slot seq) (change (entry buf seq)) }
    else buf

-- The new buffer, and whether an entry was deleted.
pub nn_sent_buf_delete : SentBuf → ℕ → SentBuf × Bool
nn_sent_buf_delete buf seq =
    if tracks buf seq
    then (
      record buf {
        entries = set buf.entries (slot seq) (record (entry buf seq) { occupied = 0 });
        count = buf.count - 1;
      },
      true,
    )
    else (buf, false)

pub nn_sent_buf_exists : SentBuf → ℕ → Bool
nn_sent_buf_exists buf seq = tracks buf seq
