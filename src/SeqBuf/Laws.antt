-- ===== src/SeqBuf/Laws.antt =====
-- The sequence buffer against the operations made on it.
use nova_net.Prelude.{
  ℕ, ◌%◌, ◌≡◌, ◌∙◌, Bool, true, false, List, [], ◌∷◌, length, arith, length-set, length-replicate,
  get_or-set, get_or-replicate, ◌==◌, if◌then◌else◌,
}
use nova_net.Seq.{ring_size, slot}
use nova_net.Seq.Order.{slot_mod, slot-lt}
use nova_net.SeqBuf.{
  SeqBuf, Op, insert, delete, run, nn_seq_buf_init, nn_seq_buf_exists, nn_seq_buf_insert,
  nn_seq_buf_delete,
}

pub record IsValid (b : SeqBuf) : Type 0 where
  pub seq_nums_size : length b.seq_nums ≡ ring_size
  pub occupied_size : length b.occupied ≡ ring_size

pub run-IsValid : (ops : List Op) → IsValid (run ops)
unfolding run nn_seq_buf_init nn_seq_buf_insert nn_seq_buf_delete
run-IsValid [] = record {
  seq_nums_size = length-replicate {A = ℕ} ring_size 0;
  occupied_size = length-replicate {A = ℕ} ring_size 0;
}
run-IsValid (insert s ∷ ops) =
    let b = run ops in
    omega (
      arith,
      length-set b.seq_nums (slot s) s,
      length-set b.occupied (slot s) 1,
      (run-IsValid ops).seq_nums_size,
      (run-IsValid ops).occupied_size,
    )
run-IsValid (delete s ∷ ops) =
    let b = run ops in
    ground (
      arith,
      length-set b.occupied (slot s) 0,
      (run-IsValid ops).seq_nums_size,
      (run-IsValid ops).occupied_size,
    )

exists-insert :
    (b : SeqBuf) (s t : ℕ)
    → IsValid b
    → nn_seq_buf_exists (nn_seq_buf_insert b s) t
      ≡ (if s == t then true else (if slot s == slot t then false else nn_seq_buf_exists b t))
unfolding nn_seq_buf_exists nn_seq_buf_insert
exists-insert b s t v = ground (
  arith,
  get_or-set b.seq_nums (slot s) (slot t) s 0,
  get_or-set b.occupied (slot s) (slot t) 1 0,
  slot-lt s,
)

exists-delete :
    (b : SeqBuf) (s t : ℕ)
    → IsValid b
    → nn_seq_buf_exists (nn_seq_buf_delete b s) t
      ≡ (if s == t then false else nn_seq_buf_exists b t)
unfolding nn_seq_buf_exists nn_seq_buf_delete
exists-delete b s t v = ground (arith, get_or-set b.occupied (slot s) (slot t) 0 0, slot-lt s)

-- Is the latest operation on the residue of `t`, deletions of other numbers aside, the insertion
-- of `t`?
pub present : List Op → ℕ → Bool
present [] t = false
present (insert s ∷ ops) t =
    if s == t then true else if s % 256 == t % 256 then false else present ops t
present (delete s ∷ ops) t = if s == t then false else present ops t

-- A number is present exactly when it was inserted, has not been deleted since, and no other
-- number with the same residue modulo 256 was inserted since.
pub exists-present : (ops : List Op) (t : ℕ) → nn_seq_buf_exists (run ops) t ≡ present ops t
unfolding run present
exists-present [] t =
    unfold nn_seq_buf_exists nn_seq_buf_init in
    ground (arith, get_or-replicate {A = ℕ} ring_size (slot t) 0)
exists-present (insert s ∷ ops) t =
    exists-insert (run ops) s t (run-IsValid ops)
    ∙ rw (slot_mod s, slot_mod t, exists-present ops t)
exists-present (delete s ∷ ops) t =
    exists-delete (run ops) s t (run-IsValid ops) ∙ rw (exists-present ops t)
