-- ===== src/Rtt/Bounds.antt =====
-- The estimator stays well formed, its timeout within the limits, and its arithmetic within 64 bits.
use nova_net.Prelude.{
  ℕ, ◌+◌, ◌-◌, ◌/◌, ◌^◌, ◌≤◌, ◌<◌, ◌≡◌, refl, ◌∙◌, ◌⊎◌, inl, inr, arith, min, max,
}
use nova_net.Prelude.Int.{ℤ, pos, negsuc, ◌+ℤ◌, ◌-ℤ◌, ◌≤ℤ◌, shr_ℤ, scale_ℤ, FitsSigned}
use nova_net.Rtt.{
  Rtt, nn_rtt_init, nn_rtt_update, next_srtt, next_rttvar, next_rto, rto_min_ns, rto_max_ns,
  uninitialized, granularity_ns, rto_k, alpha_shift, beta_shift, abs64,
}

-- No sample yet, or a smoothed time and a variance that are not negative and at most `b`.
pub record IsValid (b : ℕ) (r : Rtt) : Type 0 where
  pub srtt : (r.srtt_ns ≡ uninitialized) ⊎ ((n : ℕ) × (r.srtt_ns ≡ pos n) × (n ≤ b))
  pub rttvar : (n : ℕ) × (r.rttvar_ns ≡ pos n) × (n ≤ b)
  pub rto_low : pos rto_min_ns ≤ℤ r.rto_ns
  pub rto_high : r.rto_ns ≤ℤ pos rto_max_ns

init-IsValid : (b : ℕ) → IsValid b nn_rtt_init
unfolding nn_rtt_init
init-IsValid b = record {
  srtt = inl refl;
  rttvar = (0, refl, omega arith);
  rto_low = omega arith;
  rto_high = omega arith;
}

srtt-average :
    (s n : ℕ) (r : Rtt) → r.srtt_ns ≡ pos s → next_srtt r (pos n) ≡ pos (s - s / 8 + n / 8)
unfolding next_srtt
srtt-average s n r e = ground arith

rttvar-average :
    (s v n : ℕ) (r : Rtt)
    → r.srtt_ns ≡ pos s
    → r.rttvar_ns ≡ pos v
    → next_rttvar r (pos n) ≡ pos (v - v / 4 + (max s n - min s n) / 4)
unfolding next_rttvar
rttvar-average s v n r e d = ground arith

first_sample :
    (n : ℕ) (r : Rtt)
    → r.srtt_ns ≡ uninitialized
    → (next_srtt r (pos n) ≡ pos n) × (next_rttvar r (pos n) ≡ pos (n / 2))
unfolding next_srtt next_rttvar
first_sample n r e = ground arith

rto-bounds : (s v : ℤ) → (pos rto_min_ns ≤ℤ next_rto s v) × (next_rto s v ≤ℤ pos rto_max_ns)
unfolding next_rto
rto-bounds s v = ground arith

update_pos :
    (r : Rtt) (n : ℕ)
    → let r' = nn_rtt_update r (pos n) in
      (r'.srtt_ns ≡ next_srtt r (pos n))
      × (r'.rttvar_ns ≡ next_rttvar r (pos n))
      × (r'.rto_ns ≡ next_rto (next_srtt r (pos n)) (next_rttvar r (pos n)))
unfolding nn_rtt_update
update_pos r n = ground arith

-- A negative sample changes nothing.
pub update_negative : (r : Rtt) (n : ℕ) → nn_rtt_update r (negsuc n) ≡ r
unfolding nn_rtt_update
update_negative r n = ground arith

update_cases :
    {b : ℕ} (r : Rtt) (n : ℕ)
    → IsValid b r
    → n ≤ b
    → ((m : ℕ) × (next_srtt r (pos n) ≡ pos m) × (m ≤ b))
      × ((m : ℕ) × (next_rttvar r (pos n) ≡ pos m) × (m ≤ b))
update_cases {b} r n v h = go v.srtt v.rttvar
  where
    go :
        (r.srtt_ns ≡ uninitialized) ⊎ ((n : ℕ) × (r.srtt_ns ≡ pos n) × (n ≤ b))
        → ((n : ℕ) × (r.rttvar_ns ≡ pos n) × (n ≤ b))
        → ((m : ℕ) × (next_srtt r (pos n) ≡ pos m) × (m ≤ b))
          × ((m : ℕ) × (next_rttvar r (pos n) ≡ pos m) × (m ≤ b))
    go (inl e) d = ((n, (first_sample n r e).0, h), (n / 2, (first_sample n r e).1, omega arith))
    go (inr (s, e, p)) (w, d, q) = (
      (s - s / 8 + n / 8, srtt-average s n r e, omega arith),
      (w - w / 4 + (max s n - min s n) / 4, rttvar-average s w n r e d, omega arith),
    )

-- A sample of at most `b` leaves a well-formed estimator well formed: the smoothed time, if there
-- is one, and the variance are not negative and at most `b`, and the timeout is within its limits.
pub update-IsValid :
    (b : ℕ) (r : Rtt) (sample : ℤ)
    → IsValid b r
    → sample ≤ℤ pos b
    → IsValid b (nn_rtt_update r sample)
update-IsValid b r (negsuc n) v h = rw (update_negative r n) v
update-IsValid b r (pos n) v h =
    let (s, w) = update_cases r n v (omega arith) in
    let (a, c, d) = update_pos r n in
    record {
      srtt = inr (s.0, a ∙ s.1, s.2);
      rttvar = (w.0, c ∙ w.1, w.2);
      rto_low = rw d (rto-bounds _ _).0;
      rto_high = rw d (rto-bounds _ _).1;
    }

-- A later sample that is not negative moves a smoothed time that is not negative towards the
-- sample and never past it.
pub srtt-between :
    (r : Rtt) (s n : ℕ)
    → r.srtt_ns ≡ pos s
    → (m : ℕ) × ((nn_rtt_update r (pos n)).srtt_ns ≡ pos m) × (min s n ≤ m) × (m ≤ max s n)
srtt-between r s n e =
    (s - s / 8 + n / 8, (update_pos r n).0 ∙ srtt-average s n r e, omega arith, omega arith)

-- The variance and the difference of a later sample, term by term.
variance_fits :
    (b : ℕ) (r : Rtt) (n : ℕ)
    → b < 2 ^ 60
    → IsValid b r
    → n ≤ b
    → let delta = r.srtt_ns -ℤ pos n in
      let kept = r.rttvar_ns -ℤ shr_ℤ r.rttvar_ns beta_shift in
      FitsSigned 64 delta
      × FitsSigned 64 (pos 0 -ℤ delta)
      × FitsSigned 64 kept
      × FitsSigned 64 (kept +ℤ shr_ℤ (abs64 delta) beta_shift)
unfolding ◌+ℤ◌ ◌-ℤ◌ abs64
variance_fits b r n h v p = ground (arith, v.srtt, v.rttvar)

-- The smoothed time of a later sample, term by term.
smoothed_fits :
    (b : ℕ) (r : Rtt) (n : ℕ)
    → b < 2 ^ 60
    → IsValid b r
    → n ≤ b
    → let kept = r.srtt_ns -ℤ shr_ℤ r.srtt_ns alpha_shift in
      FitsSigned 64 kept × FitsSigned 64 (kept +ℤ shr_ℤ (pos n) alpha_shift)
unfolding ◌+ℤ◌ ◌-ℤ◌
smoothed_fits b r n h v p = ground (arith, v.srtt)

timeout_fits :
    (b : ℕ) (r : Rtt) (n : ℕ)
    → b < 2 ^ 60
    → IsValid b r
    → n ≤ b
    → FitsSigned 64 (scale_ℤ rto_k (next_rttvar r (pos n)))
      × FitsSigned 64 (next_srtt r (pos n) +ℤ scale_ℤ rto_k (next_rttvar r (pos n)))
      × FitsSigned 64 (next_srtt r (pos n) +ℤ pos granularity_ns)
unfolding ◌+ℤ◌ ◌-ℤ◌
timeout_fits b r n h v p =
    let ((s, e, i), (w, d, j)) = update_cases r n v p in ground (arith, v.srtt)

-- For a well-formed estimator and a sample that is not negative, of times up to `b` below 2^60, every
-- difference, negation, product and sum of an update fits an `int64_t`: the difference to the sample
-- and its negation, the two parts of the new variance and their sum, the two parts of the new smoothed
-- time and their sum, four times the new variance, and the timeout before it is clamped, with that
-- product or with the granularity.
pub update_fits :
    (b : ℕ) (r : Rtt) (n : ℕ)
    → b < 2 ^ 60
    → IsValid b r
    → n ≤ b
    → let delta = r.srtt_ns -ℤ pos n in
      let old_var = r.rttvar_ns -ℤ shr_ℤ r.rttvar_ns beta_shift in
      let old_srtt = r.srtt_ns -ℤ shr_ℤ r.srtt_ns alpha_shift in
      (FitsSigned 64 delta
        × FitsSigned 64 (pos 0 -ℤ delta)
        × FitsSigned 64 old_var
        × FitsSigned 64 (old_var +ℤ shr_ℤ (abs64 delta) beta_shift))
      × (FitsSigned 64 old_srtt × FitsSigned 64 (old_srtt +ℤ shr_ℤ (pos n) alpha_shift))
      × FitsSigned 64 (scale_ℤ rto_k (next_rttvar r (pos n)))
      × FitsSigned 64 (next_srtt r (pos n) +ℤ scale_ℤ rto_k (next_rttvar r (pos n)))
      × FitsSigned 64 (next_srtt r (pos n) +ℤ pos granularity_ns)
update_fits b r n h v p =
    let (product, total, least) = timeout_fits b r n h v p in
    (variance_fits b r n h v p, smoothed_fits b r n h v p, product, total, least)

-- The timeout is within its limits.
abbrev pub IsClamped : Rtt → Type 0
IsClamped r = (pos rto_min_ns ≤ℤ r.rto_ns) × (r.rto_ns ≤ℤ pos rto_max_ns)

pub rtt_init-IsClamped : IsClamped nn_rtt_init
unfolding nn_rtt_init
rtt_init-IsClamped = (omega arith, omega arith)

pub rtt_update-IsClamped : (r : Rtt) (sample : ℤ) → IsClamped r → IsClamped (nn_rtt_update r sample)
rtt_update-IsClamped r (negsuc n) v = rw (update_negative r n) v
rtt_update-IsClamped r (pos n) v = let (_, _, d) = update_pos r n in rw d (rto-bounds _ _)
