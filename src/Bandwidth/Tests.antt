-- ===== src/Bandwidth/Tests.antt =====
-- The meter with whole numbers in place of doubles.
use nova_net.Prelude.{ℕ, ◌+◌, ◌-◌, ◌*◌, ◌/◌, ◌≡◌, ltb, leb, ◌==◌, if◌then◌else◌}
use nova_net.Prelude.Int.{ℤ, pos, negsuc}
use nova_net.Congestion.Double.{Double}
use nova_net.Bandwidth.{Constants, nn_bandwidth_init, nn_bandwidth_bps, rate_of}
use nova_net.Bandwidth.Recent.{run_transfers, scan_transfers, cutoff_at, bandwidth_bps-recent}

abbrev magnitude : ℤ → ℕ
magnitude (pos n) = n
magnitude (negsuc n) = 0

abbrev whole : Double ℕ
whole = record {
  add = (λ a b. a + b);
  sub = (λ a b. a - b);
  mul = (λ a b. a * b);
  div = (λ a b. a / b);
  lt = ltb;
  le = leb;
  from_int = magnitude;
  to_int = pos;
}

abbrev constants : Constants ℕ
constants = record {
  default_window = 1000;
  zero_f = 0;
  ns_per_ms = 1000000;
  giga = 1000000000;
  milli = 1;
  to_u64 = (λ v. v);
}

abbrev every_ms : ℕ → ℕ
every_ms i = i * 1000000

abbrev packet_sizes : ℕ → ℕ
packet_sizes i = 100 + i

bandwidth_bps-recent_example :
    let bw = nn_bandwidth_init whole constants 500 in
    let recent =
      scan_transfers every_ms packet_sizes
        (cutoff_at whole constants bw.window_ms 700000000)
        128
        72
        (record { total_bytes = 0; oldest = 700000000 }) in
    nn_bandwidth_bps whole constants (run_transfers every_ms packet_sizes bw 200) 700000000
    ≡ (if 200 == 0 then 0 else rate_of whole constants recent 700000000)
bandwidth_bps-recent_example =
    bandwidth_bps-recent whole constants every_ms packet_sizes 500 200 700000000
