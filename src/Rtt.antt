-- ===== src/Rtt.antt =====
-- cbits/nn_rtt.c: the Jacobson/Karels estimator of the round-trip time. The `int64_t` values are
-- integers; `Rtt.Bounds` says for which times the operations on them fit 64 bits.
pub mod Bounds
pub mod Tests
use nova_net.Prelude.{ℕ, ◌+◌, Bool, not, if◌then◌else◌, u32}
use nova_net.Prelude.Int.{ℤ, pos, negsuc, ◌+ℤ◌, ◌-ℤ◌, ltb_ℤ, eqb_ℤ, shr_ℤ, half_ℤ, scale_ℤ}

-- `NN_RTT_ALPHA_SHIFT`, `NN_RTT_BETA_SHIFT`, `NN_RTT_RTO_K`, `NN_RTT_RTO_MIN_NS`,
-- `NN_RTT_RTO_MAX_NS`, `NN_RTT_GRANULARITY_NS` and `NN_RTT_UNINITIALIZED`
abbrev pub alpha_shift : ℕ
alpha_shift = 3

abbrev pub beta_shift : ℕ
beta_shift = 2

abbrev pub rto_k : ℕ
rto_k = 4

abbrev pub rto_min_ns : ℕ
rto_min_ns = 50000000

abbrev pub rto_max_ns : ℕ
rto_max_ns = 2000000000

abbrev pub granularity_ns : ℕ
granularity_ns = 1000000

abbrev pub uninitialized : ℤ
uninitialized = negsuc 0

pub record Rtt : Type 0 where
  pub srtt_ns : ℤ
  pub rttvar_ns : ℤ
  pub rto_ns : ℤ
  pub sample_count : ℕ

pub nn_rtt_init : Rtt
nn_rtt_init = record {
  srtt_ns = uninitialized;
  rttvar_ns = pos 0;
  rto_ns = pos rto_max_ns;
  sample_count = 0;
}

pub clamp64 : ℤ → ℤ → ℤ → ℤ
clamp64 val lo hi = if ltb_ℤ val lo then lo else if ltb_ℤ hi val then hi else val

pub abs64 : ℤ → ℤ
unfolding ◌-ℤ◌
abs64 val = if ltb_ℤ val (pos 0) then pos 0 -ℤ val else val

-- RTTVAR and SRTT after a sample: the first one, or a later one.
pub next_rttvar : Rtt → ℤ → ℤ
unfolding abs64 ◌+ℤ◌ ◌-ℤ◌
next_rttvar rtt sample_ns =
    if eqb_ℤ rtt.srtt_ns uninitialized
    then half_ℤ sample_ns
    else rtt.rttvar_ns
      -ℤ shr_ℤ rtt.rttvar_ns beta_shift
      +ℤ shr_ℤ (abs64 (rtt.srtt_ns -ℤ sample_ns)) beta_shift

pub next_srtt : Rtt → ℤ → ℤ
unfolding ◌+ℤ◌ ◌-ℤ◌
next_srtt rtt sample_ns =
    if eqb_ℤ rtt.srtt_ns uninitialized
    then sample_ns
    else rtt.srtt_ns -ℤ shr_ℤ rtt.srtt_ns alpha_shift +ℤ shr_ℤ sample_ns alpha_shift

-- RTO = SRTT + max (G, K * RTTVAR), clamped.
pub next_rto : ℤ → ℤ → ℤ
unfolding clamp64 ◌+ℤ◌
next_rto srtt_ns rttvar_ns =
    let k_rttvar = scale_ℤ rto_k rttvar_ns in
    let grace = (if ltb_ℤ (pos granularity_ns) k_rttvar then k_rttvar else pos granularity_ns) in
    clamp64 (srtt_ns +ℤ grace) (pos rto_min_ns) (pos rto_max_ns)

pub nn_rtt_update : Rtt → ℤ → Rtt
nn_rtt_update rtt sample_ns = if ltb_ℤ sample_ns (pos 0) then rtt else record {
  srtt_ns = next_srtt rtt sample_ns;
  rttvar_ns = next_rttvar rtt sample_ns;
  rto_ns = next_rto (next_srtt rtt sample_ns) (next_rttvar rtt sample_ns);
  sample_count = u32 (rtt.sample_count + 1);
}

pub nn_rtt_rto : Rtt → ℤ
nn_rtt_rto rtt = rtt.rto_ns

pub nn_rtt_srtt : Rtt → ℤ
nn_rtt_srtt rtt = if eqb_ℤ rtt.srtt_ns uninitialized then pos 0 else rtt.srtt_ns

pub nn_rtt_is_initialized : Rtt → Bool
nn_rtt_is_initialized rtt = not (eqb_ℤ rtt.srtt_ns uninitialized)
