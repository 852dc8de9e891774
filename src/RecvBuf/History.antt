-- ===== src/RecvBuf/History.antt =====
-- The tracker against the history of the numbers that were recorded, the latest first.
use nova_net.Prelude.{
  ℕ, zero, suc, ◌+◌, ◌%◌, ◌^◌, ◌<◌, ◌≡◌, refl, ◌∙◌, Bool, true, false, List, [], ◌∷◌, arith, ◌==◌,
  if◌then◌else◌, u16,
}
use nova_net.Seq.{nn_seq_gt}
use nova_net.Seq.Order.{slot_mod, seq_gt_total, seq_gt_irrefl, seq_advance}
use nova_net.RecvBuf.{RecvBuf, nn_recv_buf_init, nn_recv_buf_exists, nn_recv_buf_insert}
use nova_net.RecvBuf.Lookup.{IsValid, init-IsValid, insert-IsValid, exists-init, exists-insert}

-- The tracker after the numbers of a history.
pub record_all : List ℕ → RecvBuf
record_all [] = nn_recv_buf_init
record_all (s ∷ history) = nn_recv_buf_insert (record_all history) s

-- Is `t` the latest number of its residue modulo 256 in the history?
pub latest : List ℕ → ℕ → Bool
latest [] t = false
latest (s ∷ history) t =
    if s == t then true else if s % 256 == t % 256 then false else latest history t

pub record_all-IsValid : (history : List ℕ) → IsValid (record_all history)
unfolding record_all
record_all-IsValid [] = init-IsValid
record_all-IsValid (s ∷ history) = insert-IsValid s (record_all-IsValid history)

-- The tracker reports a number as received exactly when it was recorded and no other number with
-- the same residue modulo 256 was recorded since.
pub exists-latest :
    (history : List ℕ) (t : ℕ) → nn_recv_buf_exists (record_all history) t ≡ latest history t
unfolding record_all latest
exists-latest [] t = exists-init t
exists-latest (s ∷ history) t =
    exists-insert (record_all history) s t (record_all-IsValid history)
    ∙ rw (slot_mod s, slot_mod t, exists-latest history t)

-- The `k` numbers that follow `s`, recorded in order.
pub record_run : RecvBuf → ℕ → ℕ → RecvBuf
record_run b s zero = b
record_run b s (suc k) = nn_recv_buf_insert (record_run b s k) (u16 (s + suc k))

record_run-IsValid : {b : RecvBuf} (s k : ℕ) → IsValid b → IsValid (record_run b s k)
unfolding record_run
record_run-IsValid s zero v = v
record_run-IsValid s (suc k) v = insert-IsValid _ (record_run-IsValid s k v)

-- In a valid tracker a 16-bit number is remembered while the next 255 numbers arrive in order,
-- across the wrap: a duplicate within that distance is recognised.
pub exists-record_run :
    (b : RecvBuf) (s k : ℕ)
    → IsValid b
    → s < 2 ^ 16
    → k < 256
    → nn_recv_buf_exists (record_run (nn_recv_buf_insert b s) s k) s ≡ true
unfolding record_run
exists-record_run b s zero v p q = ground (arith, exists-insert b s s v)
exists-record_run b s (suc k) v p q =
    let run = record_run (nn_recv_buf_insert b s) s k in
    ground (
      arith,
      exists-insert run (u16 (s + suc k)) s (record_run-IsValid s k (insert-IsValid s v)),
      slot_mod s,
      slot_mod (u16 (s + suc k)),
      exists-record_run b s k v p (omega arith),
    )

-- The highest number never gets older: neither the 16-bit number just recorded nor the highest
-- before it, of 16 bits, is newer than the highest now.
pub highest-insert :
    (b : RecvBuf) (s : ℕ)
    → s < 2 ^ 16
    → b.highest < 2 ^ 16
    → let h = (nn_recv_buf_insert b s).highest in
      (nn_seq_gt s h ≡ false) × (nn_seq_gt b.highest h ≡ false)
unfolding nn_recv_buf_insert
highest-insert b s p q =
    ground (arith, seq_gt_irrefl s, seq_gt_irrefl b.highest, seq_gt_total s b.highest)

next : (s k : ℕ) → u16 (s + suc k) ≡ u16 (u16 (s + k) + 1)
next s k = omega arith

-- When any number of packets follow the highest number in order, the last of them is the highest.
pub highest-record_run :
    (b : RecvBuf) (s k : ℕ)
    → b.highest ≡ u16 s
    → s < 2 ^ 16
    → (record_run b s k).highest ≡ u16 (s + k)
unfolding record_run nn_recv_buf_insert
highest-record_run b s zero e p = omega arith
highest-record_run b s (suc k) e p =
    rw
      (
        highest-record_run b s k e p,
        next s k,
        (seq_advance (u16 (s + k)) 1 (omega arith) (omega arith) (omega arith)).0,
      )
      refl
