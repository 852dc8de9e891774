-- ===== src/AckProcess/Retransmit.antt =====
-- When `nn_ack_process` asks for a fast retransmit, and of which number.
use nova_net.Prelude.{
  ℕ, zero, suc, ◌+◌, ◌^◌, ◌≤◌, ◌<◌, ◌≡◌, refl, ◌∙◌, Bool, true, false, not, ◌&&◌, Option, none,
  some, arith, leb, if◌then◌else◌, Bool-cases, inl, inr, ◌⊎◌,
}
use native.Mathlib.Decide.{ℕ_discrete}
use nova_net.Seq.Order.{behind}
use nova_net.SentBuf.{SentRecord, SentBuf, nn_sent_buf_lookup}
use nova_net.SentBuf.Count.{IsValid}
use nova_net.LossWindow.{LossWindow}
use nova_net.AckProcess.{
  AckRun, AckResult, no_result, acknowledge, mark_lost, bump_nack, walk_step, walk, walk_seq,
  walk_bit, direct_ack, nn_ack_process, ack_bitfield_bits, fast_retransmit_threshold,
}
use nova_net.AckProcess.Walk.{walk_step-IsValid, direct_ack-IsValid, lookup-walk_step}
use nova_net.AckProcess.Effect.{lookup-direct_ack}

-- Is an entry at the threshold once this gap is counted?
pub is_due : Option SentRecord → Bool
is_due none = false
is_due (some rec) = leb fast_retransmit_threshold (bump_nack rec).nack_count

module _ (sent : SentBuf) (a f : ℕ) where
  -- Does digit `i` show a gap at an entry that is due?
  pub gap_due : ℕ → Bool
  gap_due i = not (walk_bit f i) && is_due (nn_sent_buf_lookup sent (walk_seq a i))

  -- The signal after the digits below `n`: none was due, or the last one that was is named.
  abbrev pub Signals : ℕ → AckResult → Type 0
  Signals n r =
      ((r.fast_retransmit ≡ 0) × ((k : ℕ) → k < n → gap_due k ≡ false))
      ⊎ ((j : ℕ) × (j < n)
          × (gap_due j ≡ true)
          × (r.fast_retransmit ≡ 1)
          × (r.retransmit_seq ≡ walk_seq a j)
          × ((k : ℕ) → j < k → k < n → gap_due k ≡ false))

  -- Digit `n` shows no gap that is due.
  Signals-skip : (n : ℕ) (r : AckResult) → gap_due n ≡ false → Signals n r → Signals (n + 1) r
  Signals-skip n r h (inl (e, none_due)) =
      inl (e, λ k p. elim (ℕ_discrete k n) [ yes q ↦ rw q h | no q ↦ none_due k (omega arith) ])
  Signals-skip n r h (inr (j, p, due, e, s, later)) = inr (
    j,
    omega arith,
    due,
    e,
    s,
    λ k q t. elim (ℕ_discrete k n) [ yes u ↦ rw u h | no u ↦ later k q (omega arith) ],
  )

  Signals-hit :
      (n : ℕ) (r : AckResult)
      → gap_due n ≡ true
      → r.fast_retransmit ≡ 1
      → r.retransmit_seq ≡ walk_seq a n
      → Signals (n + 1) r
  Signals-hit n r h e s = inr (n, omega arith, h, e, s, λ k q t. absurd (omega arith))

  -- A round leaves the signal alone, or sets it for its own number.
  signal-walk_step :
      (run : AckRun) (i : ℕ)
      → nn_sent_buf_lookup run.sent (walk_seq a i) ≡ nn_sent_buf_lookup sent (walk_seq a i)
      → let r = (walk_step run (walk_seq a i) (walk_bit f i)).result in
        (r.fast_retransmit ≡ (if gap_due i then 1 else run.result.fast_retransmit))
        × (r.retransmit_seq ≡ (if gap_due i then walk_seq a i else run.result.retransmit_seq))
  unfolding walk_step acknowledge mark_lost gap_due is_due
  signal-walk_step run i e = ground arith

  Signals-same :
      (n : ℕ) (r r' : AckResult)
      → r'.fast_retransmit ≡ r.fast_retransmit
      → r'.retransmit_seq ≡ r.retransmit_seq
      → Signals n r
      → Signals n r'
  Signals-same n r r' d e (inl (z, none_due)) = inl (d ∙ z, none_due)
  Signals-same n r r' d e (inr (j, p, due, o, s, later)) = inr (j, p, due, d ∙ o, e ∙ s, later)

  Signals-step :
      (run : AckRun) (i : ℕ)
      → nn_sent_buf_lookup run.sent (walk_seq a i) ≡ nn_sent_buf_lookup sent (walk_seq a i)
      → Signals i run.result
      → Signals (i + 1) (walk_step run (walk_seq a i) (walk_bit f i)).result
  Signals-step run i e h =
      let r = (walk_step run (walk_seq a i) (walk_bit f i)).result in
      let (fast, seq) = signal-walk_step run i e in
      elim (Bool-cases (gap_due i)) [
        | inl due ↦ Signals-hit i r due (ground (arith, fast)) (ground (arith, seq))
        | inr calm ↦
            Signals-skip i r calm
              (Signals-same i run.result r (ground (arith, fast)) (ground (arith, seq)) h)
      ]

  -- The entries of the numbers from digit `i` on are as they were.
  abbrev Untouched : ℕ → AckRun → Type 0
  Untouched i run =
      (t : ℕ)
      → t < 2 ^ 16
      → i < behind t a
      → nn_sent_buf_lookup run.sent t ≡ nn_sent_buf_lookup sent t

  Untouched-step :
      (run : AckRun) (i : ℕ)
      → IsValid run.sent
      → a < 2 ^ 16
      → i < 32
      → Untouched i run
      → Untouched (i + 1) (walk_step run (walk_seq a i) (walk_bit f i))
  Untouched-step run i v p h u t q k =
      lookup-walk_step run (walk_seq a i) t (walk_bit f i) v.sized
      ∙ ground (arith, u t q (omega arith))

  Signals-walk :
      (rounds i n : ℕ) (run : AckRun)
      → i + rounds ≡ n
      → n ≤ 32
      → a < 2 ^ 16
      → IsValid run.sent
      → Untouched i run
      → Signals i run.result
      → Signals n (walk a f rounds i run).result
  unfolding walk
  Signals-walk zero i n run e b p v u h = let q : i ≡ n = omega arith in rw (← q) h
  Signals-walk (suc rounds) i n run e b p v u h =
      let run' = walk_step run (walk_seq a i) (walk_bit f i) in
      Signals-walk rounds (i + 1) n run' (omega arith) b p
        (walk_step-IsValid run (walk_seq a i) (walk_bit f i) v)
        (Untouched-step run i v p (omega arith) u)
        (Signals-step run i (u (walk_seq a i) (omega arith) (omega arith)) h)

-- For a valid sent buffer and a 16-bit `ack_seq`, a fast retransmit is asked for exactly when some
-- gap of the field stands at an entry whose nack count, a byte, is at least three once this gap is
-- counted; the number named is the furthest back of these.
pub ack_process-Signals :
    (sent : SentBuf) (lw : LossWindow) (a f now : ℕ)
    → IsValid sent
    → a < 2 ^ 16
    → Signals sent a f ack_bitfield_bits (nn_ack_process sent lw a f now).result
unfolding nn_ack_process
ack_process-Signals sent lw a f now v p =
    let run : AckRun = record { sent = sent; lw = lw; result = no_result } in
    Signals-walk sent a f 32 0 32 (direct_ack run a now) refl (omega arith) p
      (direct_ack-IsValid run a now v)
      (λ t q k. lookup-direct_ack run a now t v.sized ∙ ground arith)
      (inl (unfold direct_ack acknowledge in ground arith, λ k q. absurd (omega arith)))

-- The nack count is a byte: an entry with 255 nacks is not due once one more gap is counted, since
-- the count is then 0.
pub nack_wraps : (rec : SentRecord) → rec.nack_count ≡ 255 → is_due (some rec) ≡ false
unfolding is_due bump_nack
nack_wraps rec h = ground arith
