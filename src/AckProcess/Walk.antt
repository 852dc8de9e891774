-- ===== src/AckProcess/Walk.antt =====
-- The walk over the bitfield: what it leaves of the sent buffer, number by number.
use nova_net.Prelude.{
  ℕ, zero, suc, ◌+◌, ◌-◌, ◌^◌, ◌≤◌, ◌<◌, ◌≡◌, ◌≢◌, refl, ap, ◌∙◌, ◌%◌, Bool, true, false, ◌&&◌,
  Option, none, some, arith, ◌==◌, ltb, leb, if◌then◌else◌, Option-cases, inl, inr, Bool-cases,
}
use mathlib.Core.Option
use nova_net.Seq.Order.{behind}
use nova_net.SentBuf.{SentRecord, nn_sent_buf_lookup}
use nova_net.SentBuf.Lookup.{IsSized, lookup-delete, lookup-mut}
use nova_net.SentBuf.Count.{IsValid, delete-IsValid, mut-IsValid}
use nova_net.AckProcess.{
  AckRun, acknowledge, mark_lost, bump_nack, walk_step, walk, walk_seq, walk_bit, direct_ack,
}

bump_nack-occupied : (r : SentRecord) → (bump_nack r).occupied ≡ r.occupied
unfolding bump_nack
bump_nack-occupied r = refl

pub walk_step-IsValid :
    (run : AckRun) (s : ℕ) (b : Bool) → IsValid run.sent → IsValid (walk_step run s b).sent
walk_step-IsValid run s b v = elim (Option-cases (nn_sent_buf_lookup run.sent s)) [
  | inl e ↦ unfold walk_step in rw (e, walk_step) v
  | inr (r, e) ↦ elim b as (λ b. IsValid (walk_step run s b).sent) [
    | true ↦ unfold walk_step acknowledge in rw (e, walk_step) (delete-IsValid s v)
    | false ↦
        unfold walk_step mark_lost in
        rw (e, walk_step) (mut-IsValid s bump_nack bump_nack-occupied v)
  ]
]

pub direct_ack-IsValid :
    (run : AckRun) (a now : ℕ) → IsValid run.sent → IsValid (direct_ack run a now).sent
direct_ack-IsValid run a now v = elim (Option-cases (nn_sent_buf_lookup run.sent a)) [
  | inl e ↦ unfold direct_ack in rw (e, direct_ack) v
  | inr (r, e) ↦ unfold direct_ack acknowledge in rw (e, direct_ack) (delete-IsValid a v)
]

pub walk-IsValid :
    (a f rounds i : ℕ) (run : AckRun) → IsValid run.sent → IsValid (walk a f rounds i run).sent
unfolding walk
walk-IsValid a f zero i run v = v
walk-IsValid a f (suc rounds) i run v =
    walk-IsValid a f rounds (i + 1) (walk_step run (walk_seq a i) (walk_bit f i))
      (walk_step-IsValid run (walk_seq a i) (walk_bit f i) v)

-- One more nack in a byte, which goes from 255 to 0.
abbrev pub nacked : SentRecord → SentRecord
nacked rec = record rec { nack_count = (rec.nack_count + 1) % 256 }

bump_nack-nacked : (r : SentRecord) → bump_nack r ≡ nacked r
unfolding bump_nack
bump_nack-nacked r = refl

-- What one round leaves of the entry of its own number.
abbrev pub after_step : Bool → Option SentRecord → Option SentRecord
after_step received o = if received then none else Option.map nacked o

map-bump_nack : (o : Option SentRecord) → Option.map bump_nack o ≡ Option.map nacked o
map-bump_nack none = refl
map-bump_nack (some r) = ap some (bump_nack-nacked r)

pub lookup-walk_step :
    (run : AckRun) (s t : ℕ) (b : Bool)
    → IsSized run.sent
    → nn_sent_buf_lookup (walk_step run s b).sent t ≡ (
        if s == t
        then after_step b (nn_sent_buf_lookup run.sent t)
        else nn_sent_buf_lookup run.sent t)
unfolding walk_step acknowledge mark_lost
lookup-walk_step run s t b v = ground (
  arith,
  lookup-delete run.sent s t v,
  lookup-mut run.sent s bump_nack t v bump_nack-occupied,
  map-bump_nack (nn_sent_buf_lookup run.sent t),
)

-- The rounds from `i + 1` on, after round `i`, are the rounds from `i` on.
walk_cases :
    (a f rounds i t : ℕ) (o : Option SentRecord)
    → a < 2 ^ 16
    → t < 2 ^ 16
    → i + suc rounds ≤ 32
    → (let o' = (if walk_seq a i == t then after_step (walk_bit f i) o else o) in
        if ltb (i + 1) (behind t a) && leb (behind t a) (i + 1 + rounds)
        then after_step (walk_bit f (behind t a - 1)) o'
        else o')
      ≡ (if ltb i (behind t a) && leb (behind t a) (i + suc rounds)
          then after_step (walk_bit f (behind t a - 1)) o
          else o)
walk_cases a f rounds i t o p q r = elim (Bool-cases (walk_seq a i == t)) [
  | inl e ↦
      (let k : behind t a - 1 ≡ i = ground arith in
        let h : behind t a ≡ i + 1 = ground arith in ground arith)
  | inr e ↦ (let h : behind t a ≢ i + 1 = ground arith in ground arith)
]

-- The walk from digit `i` on over `rounds` digits: the number `t` is `j + 1` behind `a`.
pub lookup-walk :
    (a f rounds i : ℕ) (run : AckRun) (t : ℕ)
    → IsValid run.sent
    → a < 2 ^ 16
    → t < 2 ^ 16
    → i + rounds ≤ 32
    → nn_sent_buf_lookup (walk a f rounds i run).sent t ≡ (
        if ltb i (behind t a) && leb (behind t a) (i + rounds)
        then after_step (walk_bit f (behind t a - 1)) (nn_sent_buf_lookup run.sent t)
        else nn_sent_buf_lookup run.sent t)
unfolding walk
lookup-walk a f zero i run t v p q r = ground arith
lookup-walk a f (suc rounds) i run t v p q r =
    let run' = walk_step run (walk_seq a i) (walk_bit f i) in
    lookup-walk a f rounds (i + 1) run' t (walk_step-IsValid run (walk_seq a i) (walk_bit f i) v) p
      q (omega arith)
    ∙ rw (lookup-walk_step run (walk_seq a i) t (walk_bit f i) v.sized)
        (walk_cases a f rounds i t (nn_sent_buf_lookup run.sent t) p q r)
