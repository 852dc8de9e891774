-- ===== src/Bandwidth/Ring.antt =====
-- The rings of the meter over its operations.
use nova_net.Prelude.{ℕ, ◌≤◌, ◌≡◌, length, length-set, length-replicate, arith}
use nova_net.Bandwidth.{Bandwidth, Constants, max_samples, nn_bandwidth_init, nn_bandwidth_record}
use nova_net.Congestion.Double.{Double}

-- Both rings of the meter keep their size, the count does not pass it.
pub record IsRing {F : Type 0} (b : Bandwidth F) : Type 0 where
  pub timestamps_size : length b.timestamps ≡ max_samples
  pub sizes_size : length b.sizes ≡ max_samples
  pub count_fits : b.count ≤ max_samples

pub bandwidth_init-IsRing :
    {F : Type 0} (d : Double F) (c : Constants F) (window_ms : F)
    → IsRing (nn_bandwidth_init d c window_ms)
unfolding nn_bandwidth_init
bandwidth_init-IsRing d c window_ms = record {
  timestamps_size = length-replicate {A = ℕ} max_samples 0;
  sizes_size = length-replicate {A = ℕ} max_samples 0;
  count_fits = omega arith;
}

pub bandwidth_record-IsRing :
    {F : Type 0} (b : Bandwidth F) (size now_ns : ℕ)
    → IsRing b
    → IsRing (nn_bandwidth_record b size now_ns)
unfolding nn_bandwidth_record
bandwidth_record-IsRing b size now_ns v = record {
  timestamps_size = rw (length-set) v.timestamps_size;
  sizes_size = rw (length-set) v.sizes_size;
  count_fits = ground (arith, v.count_fits);
}
