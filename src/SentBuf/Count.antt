-- ===== src/SentBuf/Count.antt =====
-- The cached count is the number of occupied entries.
use nova_net.Prelude.{
  ℕ, zero, suc, ◌+◌, ◌<◌, ◌≤◌, ◌≡◌, refl, Bool, true, false, List, [], ◌∷◌, length, get_or, set,
  replicate, arith, length-set, length-replicate, if◌then◌else◌, none, some,
}
use nova_net.Seq.{ring_size, slot}
use nova_net.Seq.Order.{slot-lt}
use nova_net.SentBuf.{
  SentRecord, SentBuf, empty_record, entry, is_set, nn_sent_buf_init, nn_sent_buf_insert,
  nn_sent_buf_lookup, nn_sent_buf_lookup_mut, nn_sent_buf_delete, nn_sent_buf_exists,
}
use nova_net.SentBuf.Lookup.{IsSized}

-- 1 at an occupied entry.
abbrev pub mark : SentRecord → ℕ
mark r = if is_set r.occupied then 1 else 0

abbrev pub occupied_count : List SentRecord → ℕ
occupied_count [] = 0
occupied_count (r ∷ rs) = mark r + occupied_count rs

pub record IsValid (b : SentBuf) : Type 0 where
  pub sized : IsSized b
  pub counted : b.count ≡ occupied_count b.entries

occupied_count-le : (rs : List SentRecord) → occupied_count rs ≤ length rs
occupied_count-le [] = omega arith
occupied_count-le (r ∷ rs) = ground (arith, occupied_count-le rs)

occupied_count-set :
    (rs : List SentRecord) (i : ℕ) (r : SentRecord)
    → i < length rs
    → occupied_count (set rs i r) + mark (get_or rs i empty_record) ≡ occupied_count rs + mark r
occupied_count-set [] i r h = absurd (omega arith)
occupied_count-set (x ∷ xs) zero r h = omega arith
occupied_count-set (x ∷ xs) (suc i) r h = omega (arith, occupied_count-set xs i r (omega arith))

occupied_count-replicate : (n : ℕ) → occupied_count (replicate n empty_record) ≡ 0
occupied_count-replicate zero = refl
occupied_count-replicate (suc n) = omega (arith, occupied_count-replicate n)

pub init-IsValid : IsValid nn_sent_buf_init
unfolding nn_sent_buf_init
init-IsValid = record {
  sized = record {
    entries_size = length-replicate ring_size empty_record;
    seq_nums_size = length-replicate {A = ℕ} ring_size 0;
  };
  counted = ground (arith, occupied_count-replicate ring_size);
}

-- An insertion keeps the count exact.
pub insert-IsValid :
    {b : SentBuf} (s : ℕ) (r : SentRecord) → IsValid b → IsValid (nn_sent_buf_insert b s r).0
unfolding nn_sent_buf_insert
insert-IsValid {b} s r v = ground (
  arith,
  v.sized.entries_size,
  v.sized.seq_nums_size,
  length-set b.entries (slot s) (record r { occupied = 1 }),
  length-set b.seq_nums (slot s) s,
  occupied_count-set b.entries (slot s) (record r { occupied = 1 }),
  slot-lt s,
)

-- A deletion keeps the count exact.
pub delete-IsValid : {b : SentBuf} (s : ℕ) → IsValid b → IsValid (nn_sent_buf_delete b s).0
unfolding nn_sent_buf_delete
delete-IsValid {b} s v = ground (
  arith,
  v.sized.entries_size,
  v.sized.seq_nums_size,
  length-set b.entries (slot s) (record (entry b s) { occupied = 0 }),
  occupied_count-set b.entries (slot s) (record (entry b s) { occupied = 0 }),
  slot-lt s,
)

-- A change of a record that leaves its flag alone keeps the count exact.
pub mut-IsValid :
    {b : SentBuf} (s : ℕ) (f : SentRecord → SentRecord)
    → ((r : SentRecord) → (f r).occupied ≡ r.occupied)
    → IsValid b
    → IsValid (nn_sent_buf_lookup_mut b s f)
unfolding nn_sent_buf_lookup_mut
mut-IsValid {b} s f keep v = ground (
  arith,
  v.sized.entries_size,
  v.sized.seq_nums_size,
  length-set b.entries (slot s) (f (entry b s)),
  occupied_count-set b.entries (slot s) (f (entry b s)),
  slot-lt s,
  keep (entry b s),
)

pub count-le : {b : SentBuf} → IsValid b → b.count ≤ ring_size
count-le {b} v = omega (arith, v.counted, v.sized.entries_size, occupied_count-le b.entries)

-- In a valid buffer a deletion reports whether the number was tracked, and takes the count down by
-- one in just that case, never below zero.
pub count-delete :
    {b : SentBuf} (s : ℕ)
    → IsValid b
    → ((nn_sent_buf_delete b s).1 ≡ nn_sent_buf_exists b s)
      × ((nn_sent_buf_delete b s).0.count + (if nn_sent_buf_exists b s then 1 else 0) ≡ b.count)
unfolding nn_sent_buf_delete nn_sent_buf_exists
count-delete {b} s v = ground (
  arith,
  v.sized.entries_size,
  occupied_count-set b.entries (slot s) (record (entry b s) { occupied = 0 }),
  slot-lt s,
)

-- An insertion adds one to the count, less the entry of the same number that it replaces and the
-- evicted entry, if there is one, which it reports.
pub count-insert :
    (b : SentBuf) (s : ℕ) (r : SentRecord)
    → (nn_sent_buf_insert b s r).0.count
        + (nn_sent_buf_insert b s r).1
        + (if nn_sent_buf_exists b s then 1 else 0)
      ≡ b.count + 1
unfolding nn_sent_buf_insert nn_sent_buf_exists
count-insert b s r = ground arith

pub count-mut :
    (b : SentBuf) (s : ℕ) (f : SentRecord → SentRecord)
    → (nn_sent_buf_lookup_mut b s f).count ≡ b.count
unfolding nn_sent_buf_lookup_mut
count-mut b s f = ground arith

-- A lookup succeeds exactly on the numbers that are tracked.
pub exists-lookup :
    (b : SentBuf) (s : ℕ)
    → nn_sent_buf_exists b s
      ≡ elim (nn_sent_buf_lookup b s) as (λ _. Bool) [ none ↦ false | some _ ↦ true ]
unfolding nn_sent_buf_exists nn_sent_buf_lookup
exists-lookup b s = ground arith

pub count-init : nn_sent_buf_init.count ≡ 0
unfolding nn_sent_buf_init
count-init = refl
