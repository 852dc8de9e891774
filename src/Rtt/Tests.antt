-- ===== src/Rtt/Tests.antt =====
-- A second sample after one of 100 ms.
use nova_net.Prelude.{refl, inr, arith}
use nova_net.Prelude.Int.{pos, ◌+ℤ◌, ◌-ℤ◌, shr_ℤ, scale_ℤ, FitsSigned}
use nova_net.Rtt.{
  Rtt, nn_rtt_update, next_srtt, next_rttvar, rto_k, granularity_ns, beta_shift, abs64,
}
use nova_net.Rtt.Bounds.{IsValid, update-IsValid, update_fits}

abbrev sampled : Rtt
sampled = record {
  srtt_ns = pos 100000000;
  rttvar_ns = pos 50000000;
  rto_ns = pos 300000000;
  sample_count = 1;
}

sampled-IsValid : IsValid 200000000 sampled
sampled-IsValid = record {
  srtt = inr (100000000, refl, omega arith);
  rttvar = (50000000, refl, omega arith);
  rto_low = omega arith;
  rto_high = omega arith;
}

update-IsValid_example : IsValid 200000000 (nn_rtt_update sampled (pos 150000000))
update-IsValid_example =
    update-IsValid 200000000 sampled (pos 150000000) sampled-IsValid (omega arith)

update_fits_example :
    let delta = pos 100000000 -ℤ pos 150000000 in
    let old_var = pos 50000000 -ℤ pos 12500000 in
    let old_srtt = pos 100000000 -ℤ pos 12500000 in
    (FitsSigned 64 delta
      × FitsSigned 64 (pos 0 -ℤ delta)
      × FitsSigned 64 old_var
      × FitsSigned 64 (old_var +ℤ shr_ℤ (abs64 delta) beta_shift))
    × (FitsSigned 64 old_srtt × FitsSigned 64 (old_srtt +ℤ pos 18750000))
    × FitsSigned 64 (scale_ℤ rto_k (next_rttvar sampled (pos 150000000)))
    × FitsSigned 64
        (next_srtt sampled (pos 150000000) +ℤ scale_ℤ rto_k (next_rttvar sampled (pos 150000000)))
    × FitsSigned 64 (next_srtt sampled (pos 150000000) +ℤ pos granularity_ns)
update_fits_example =
    update_fits 200000000 sampled 150000000 (omega arith) sampled-IsValid (omega arith)
