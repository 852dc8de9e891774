-- ===== src/RecvBuf/Lookup.antt =====
-- The arrays keep their sizes, and what `nn_recv_buf_exists` answers after each operation.
use nova_net.Prelude.{
  ℕ, ◌≡◌, true, false, length, arith, length-set, length-replicate, get_or-set, get_or-replicate,
  ◌==◌, if◌then◌else◌,
}
use nova_net.Seq.{ring_size, slot}
use nova_net.Seq.Order.{slot-lt}
use nova_net.RecvBuf.{RecvBuf, nn_recv_buf_init, nn_recv_buf_exists, nn_recv_buf_insert}

-- Both arrays have a cell for each slot, so no access is out of range.
pub record IsValid (b : RecvBuf) : Type 0 where
  pub seqs_size : length b.seqs ≡ ring_size
  pub occupied_size : length b.occupied ≡ ring_size

pub init-IsValid : IsValid nn_recv_buf_init
unfolding nn_recv_buf_init
init-IsValid = record {
  seqs_size = length-replicate {A = ℕ} ring_size 0;
  occupied_size = length-replicate {A = ℕ} ring_size 0;
}

pub insert-IsValid : {b : RecvBuf} (s : ℕ) → IsValid b → IsValid (nn_recv_buf_insert b s)
unfolding nn_recv_buf_insert
insert-IsValid {b} s v = omega (
  arith,
  length-set b.seqs (slot s) s,
  length-set b.occupied (slot s) 1,
  v.seqs_size,
  v.occupied_size,
)

pub exists-init : (t : ℕ) → nn_recv_buf_exists nn_recv_buf_init t ≡ false
unfolding nn_recv_buf_exists nn_recv_buf_init
exists-init t = ground (arith, get_or-replicate {A = ℕ} ring_size (slot t) 0)

-- After an insertion the number is present, the other numbers of its slot are gone, and nothing
-- else has changed.
pub exists-insert :
    (b : RecvBuf) (s t : ℕ)
    → IsValid b
    → nn_recv_buf_exists (nn_recv_buf_insert b s) t
      ≡ (if s == t then true else (if slot s == slot t then false else nn_recv_buf_exists b t))
unfolding nn_recv_buf_exists nn_recv_buf_insert
exists-insert b s t v = ground (
  arith,
  get_or-set b.seqs (slot s) (slot t) s 0,
  get_or-set b.occupied (slot s) (slot t) 1 0,
  slot-lt s,
)
