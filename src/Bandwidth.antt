-- ===== src/Bandwidth.antt =====
-- cbits/nn_bandwidth.c: the ring of the last 128 transfers and the rate over a window of time. The
-- type `double` with its operations and constants is a parameter.
pub mod Recent
pub mod Ring
pub mod Tests
use nova_net.Prelude.{
  ℕ, zero, suc, ◌+◌, ◌-◌, ◌^◌, bit_and, Bool, List, [], replicate, get_or, set, ltb, leb, ◌==◌,
  if◌then◌else◌, u32, u64,
}
use nova_net.Prelude.Int.{ℤ, pos}
use nova_net.Congestion.Double.{Double}

-- `NN_BANDWIDTH_MAX_SAMPLES` and `NN_BANDWIDTH_MASK`
abbrev pub max_samples : ℕ
max_samples = 128

abbrev pub bandwidth_mask : ℕ
bandwidth_mask = 127

pub record Bandwidth (F : Type 0) : Type 0 where
  pub timestamps : List ℕ
  pub sizes : List ℕ
  pub head : ℕ
  pub count : ℕ
  pub window_ms : F

-- The two numbers that the loop of `nn_bandwidth_bps` collects.
pub record Scan : Type 0 where
  pub total_bytes : ℕ
  pub oldest : ℕ

-- One transfer in that loop.
pub scan_sample : ℕ → ℕ → ℕ → Scan → Scan
scan_sample cutoff time size s =
    if leb cutoff time
    then record {
      total_bytes = u64 (s.total_bytes + size);
      oldest = if ltb time s.oldest then time else s.oldest;
    }
    else s

pub nn_bandwidth_record : {F : Type 0} → Bandwidth F → ℕ → ℕ → Bandwidth F
nn_bandwidth_record bw size now_ns =
    let idx = bit_and bw.head bandwidth_mask in
    record bw {
      timestamps = set bw.timestamps idx now_ns;
      sizes = set bw.sizes idx size;
      head = u32 (bw.head + 1);
      count = if ltb bw.count max_samples then bw.count + 1 else bw.count;
    }

-- The loop: `rounds` places are left from round `i` on.
pub scan_from : {F : Type 0} → Bandwidth F → ℕ → ℕ → ℕ → ℕ → Scan → Scan
scan_from bw cutoff start zero i s = s
scan_from bw cutoff start (suc rounds) i s =
    let idx = bit_and (u32 (start + i)) bandwidth_mask in
    scan_from bw cutoff start rounds (i + 1)
      (scan_sample cutoff (get_or bw.timestamps idx 0) (get_or bw.sizes idx 0) s)

pub scan : {F : Type 0} → Bandwidth F → ℕ → ℕ → Scan
scan bw cutoff now_ns =
    scan_from bw cutoff (u32 (bw.head + 2 ^ 32 - bw.count)) bw.count 0
      (record { total_bytes = 0; oldest = now_ns })

-- `NN_BANDWIDTH_WINDOW_MS`, `0.0`, `(double)NS_PER_MS`, `1e9` and `0.001`, and the cast to `uint64_t`.
pub record Constants (F : Type 0) : Type 0 where
  pub default_window : F
  pub zero_f : F
  pub ns_per_ms : F
  pub giga : F
  pub milli : F
  pub to_u64 : F → ℕ

module _ {F : Type 0} (d : Double F) (c : Constants F) where
  pub nn_bandwidth_init : F → Bandwidth F
  nn_bandwidth_init window_ms = record {
    timestamps = replicate max_samples 0;
    sizes = replicate max_samples 0;
    head = 0;
    count = 0;
    window_ms = if d.lt c.zero_f window_ms then window_ms else c.default_window;
  }

  -- The quotient at the end, of what the loop collected.
  pub rate_of : Scan → ℕ → F
  rate_of s now_ns =
      let total = d.from_int (pos s.total_bytes) in
      let elapsed_s = d.div (d.from_int (pos (now_ns - s.oldest))) c.giga in
      if s.total_bytes == 0
      then c.zero_f
      else if d.lt elapsed_s c.milli
      then d.div total c.milli
      else d.div total elapsed_s

  pub nn_bandwidth_bps : Bandwidth F → ℕ → F
  nn_bandwidth_bps bw now_ns =
      let window_ns = c.to_u64 (d.mul bw.window_ms c.ns_per_ms) in
      let cutoff = if ltb window_ns now_ns then now_ns - window_ns else 0 in
      if bw.count == 0 then c.zero_f else rate_of (scan bw cutoff now_ns) now_ns
