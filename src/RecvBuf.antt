-- ===== src/RecvBuf.antt =====
-- `nn_recv_buf` of cbits/nn_seq.h and nn_seq.c: the tracker of received sequence numbers.
pub mod Lookup
pub mod History
pub mod Tests
use nova_net.Prelude.{ℕ, Bool, not, ◌&&◌, List, get_or, set, replicate, ◌==◌, if◌then◌else◌}
use nova_net.Seq.{ring_size, nn_seq_gt, slot}

pub record RecvBuf : Type 0 where
  pub seqs : List ℕ
  pub occupied : List ℕ
  pub highest : ℕ

unfoldable pub nn_recv_buf_init : RecvBuf
nn_recv_buf_init = record {
  seqs = replicate ring_size 0;
  occupied = replicate ring_size 0;
  highest = 0;
}

-- A flag is set when it is not zero.
unfoldable pub nn_recv_buf_exists : RecvBuf → ℕ → Bool
nn_recv_buf_exists buf seq =
    not (get_or buf.occupied (slot seq) 0 == 0) && get_or buf.seqs (slot seq) 0 == seq

pub nn_recv_buf_insert : RecvBuf → ℕ → RecvBuf
nn_recv_buf_insert buf seq = record {
  seqs = set buf.seqs (slot seq) seq;
  occupied = set buf.occupied (slot seq) 1;
  highest = if nn_seq_gt seq buf.highest then seq else buf.highest;
}
