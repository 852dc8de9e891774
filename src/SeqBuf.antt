-- ===== src/SeqBuf.antt =====
-- `nn_seq_buf` of cbits/nn_seq.h and nn_seq.c: the presence of a channel's messages, in a ring of
-- 256 slots whose payload the caller keeps.
pub mod Laws
pub mod Tests
use nova_net.Prelude.{
  ℕ, Bool, not, ◌&&◌, List, [], ◌∷◌, get_or, set, replicate, ◌==◌, if◌then◌else◌,
}
use nova_net.Seq.{ring_size, nn_seq_gt, slot}

pub record SeqBuf : Type 0 where
  pub seq_nums : List ℕ
  pub occupied : List ℕ
  pub highest : ℕ

pub nn_seq_buf_init : SeqBuf
nn_seq_buf_init = record {
  seq_nums = replicate ring_size 0;
  occupied = replicate ring_size 0;
  highest = 0;
}

pub nn_seq_buf_exists : SeqBuf → ℕ → Bool
nn_seq_buf_exists buf seq =
    not (get_or buf.occupied (slot seq) 0 == 0) && get_or buf.seq_nums (slot seq) 0 == seq

pub nn_seq_buf_insert : SeqBuf → ℕ → SeqBuf
nn_seq_buf_insert buf seq = record {
  seq_nums = set buf.seq_nums (slot seq) seq;
  occupied = set buf.occupied (slot seq) 1;
  highest = if nn_seq_gt seq buf.highest then seq else buf.highest;
}

pub nn_seq_buf_delete : SeqBuf → ℕ → SeqBuf
unfolding nn_seq_buf_exists
nn_seq_buf_delete buf seq =
    if nn_seq_buf_exists buf seq
    then record buf { occupied = set buf.occupied (slot seq) 0 }
    else buf

-- A caller's operations in order, and the buffer after them, the latest first.
pub data Op : Type 0 where
  insert delete : ℕ → Op

pub run : List Op → SeqBuf
run [] = nn_seq_buf_init
run (insert s ∷ ops) = nn_seq_buf_insert (run ops) s
run (delete s ∷ ops) = nn_seq_buf_delete (run ops) s
