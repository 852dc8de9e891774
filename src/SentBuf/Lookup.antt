-- ===== src/SentBuf/Lookup.antt =====
-- What a lookup finds after each operation of the sent buffer.
use nova_net.Prelude.{
  ℕ, ◌≡◌, length, arith, get_or-set, get_or-replicate, ◌==◌, if◌then◌else◌, none, some,
}
use mathlib.Core.Option
use nova_net.Seq.{ring_size, slot}
use nova_net.Seq.Order.{slot-lt}
use nova_net.SentBuf.{
  SentRecord, SentBuf, empty_record, entry, nn_sent_buf_init, nn_sent_buf_insert,
  nn_sent_buf_lookup, nn_sent_buf_lookup_mut, nn_sent_buf_delete,
}

-- Both arrays have a cell for each slot, so no access is out of range.
pub record IsSized (b : SentBuf) : Type 0 where
  pub entries_size : length b.entries ≡ ring_size
  pub seq_nums_size : length b.seq_nums ≡ ring_size

pub lookup-init : (t : ℕ) → nn_sent_buf_lookup nn_sent_buf_init t ≡ none
unfolding nn_sent_buf_lookup nn_sent_buf_init
lookup-init t = ground (arith, get_or-replicate ring_size (slot t) empty_record)

-- In a buffer with a cell for each slot, after an insertion the record is found, marked as
-- occupied, under its number; the other numbers of its slot are found no more, and all others as
-- before.
pub lookup-insert :
    (b : SentBuf) (s : ℕ) (r : SentRecord) (t : ℕ)
    → IsSized b
    → nn_sent_buf_lookup (nn_sent_buf_insert b s r).0 t ≡ (
        if s == t
        then some (record r { occupied = 1 })
        else (if slot s == slot t then none else nn_sent_buf_lookup b t))
unfolding nn_sent_buf_lookup nn_sent_buf_insert
lookup-insert b s r t v = ground (
  arith,
  get_or-set b.entries (slot s) (slot t) (record r { occupied = 1 }) empty_record,
  get_or-set b.seq_nums (slot s) (slot t) s 0,
  slot-lt s,
)

-- In a buffer with a cell for each slot, after a deletion the number is found no more, and every
-- other number as before.
pub lookup-delete :
    (b : SentBuf) (s t : ℕ)
    → IsSized b
    → nn_sent_buf_lookup (nn_sent_buf_delete b s).0 t
      ≡ (if s == t then none else nn_sent_buf_lookup b t)
unfolding nn_sent_buf_lookup nn_sent_buf_delete
lookup-delete b s t v = ground (
  arith,
  get_or-set b.entries (slot s) (slot t) (record (entry b s) { occupied = 0 }) empty_record,
  slot-lt s,
)

-- A change through the pointer is seen under its number and under no other.
pub lookup-mut :
    (b : SentBuf) (s : ℕ) (f : SentRecord → SentRecord) (t : ℕ)
    → IsSized b
    → ((r : SentRecord) → (f r).occupied ≡ r.occupied)
    → nn_sent_buf_lookup (nn_sent_buf_lookup_mut b s f) t
      ≡ (if s == t then Option.map f (nn_sent_buf_lookup b t) else nn_sent_buf_lookup b t)
unfolding nn_sent_buf_lookup nn_sent_buf_lookup_mut
lookup-mut b s f t v keep = ground (
  arith,
  get_or-set b.entries (slot s) (slot t) (f (entry b s)) empty_record,
  slot-lt s,
  keep (entry b s),
)
