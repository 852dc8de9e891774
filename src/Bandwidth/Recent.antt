-- ===== src/Bandwidth/Recent.antt =====
-- The ring against the sequence of transfers.
use nova_net.Prelude.{
  ℕ, zero, suc, ◌+◌, ◌-◌, ◌%◌, ◌^◌, ◌<◌, ◌≤◌, ◌≡◌, refl, ap, ap₂, ◌∙◌, length, length-set,
  length-replicate, get_or, get_or-set, bit_and, ltb, ◌==◌, if◌then◌else◌, u32, min, arith,
}
use native.Mathlib.Decide.{dec_lt}
use nova_net.Prelude.Bits.{bit_and-mask}
use nova_net.Congestion.Double.{Double}
use nova_net.Bandwidth.{
  Bandwidth, Scan, scan_sample, scan_from, scan, Constants, rate_of, nn_bandwidth_init,
  nn_bandwidth_record, nn_bandwidth_bps,
}

-- The transfers from number `lo` on, in their order.
pub scan_transfers : (ℕ → ℕ) → (ℕ → ℕ) → ℕ → ℕ → ℕ → Scan → Scan
scan_transfers times sizes cutoff zero lo s = s
scan_transfers times sizes cutoff (suc rounds) lo s =
    scan_transfers times sizes cutoff rounds (lo + 1) (scan_sample cutoff (times lo) (sizes lo) s)

module _ {F : Type 0} (times sizes : ℕ → ℕ) where
  -- The ring after `n` transfers.
  abbrev pub run_transfers : Bandwidth F → ℕ → Bandwidth F
  run_transfers bw zero = bw
  run_transfers bw (suc n) = nn_bandwidth_record (run_transfers bw n) (sizes n) (times n)

  record Keeps (n : ℕ) (bw : Bandwidth F) : Type 0 where
    times_size : length bw.timestamps ≡ 128
    sizes_size : length bw.sizes ≡ 128
    head : bw.head ≡ n % 2 ^ 32
    count : bw.count ≡ min n 128
    held :
        (i : ℕ)
        → i < n
        → n ≤ i + 128
        → (get_or bw.timestamps (i % 128) 0 ≡ times i) × (get_or bw.sizes (i % 128) 0 ≡ sizes i)

  record-Keeps :
      (n : ℕ) (bw : Bandwidth F)
      → Keeps n bw
      → Keeps (suc n) (nn_bandwidth_record bw (sizes n) (times n))
  unfolding nn_bandwidth_record
  record-Keeps n bw k =
      let idx = bit_and bw.head 127 in
      let place : idx ≡ n % 128 = omega (arith, bit_and-mask 7 bw.head, k.head) in
      let count = k.count in
      let ts = k.times_size in
      let zs = k.sizes_size in
      record {
        times_size = length-set bw.timestamps idx (times n) ∙ ts;
        sizes_size = length-set bw.sizes idx (sizes n) ∙ zs;
        head = omega (arith, k.head);
        count = ground (arith, count);
        held = (λ i p q.
            let time =
              get_or-set bw.timestamps idx (i % 128) (times n) 0 (omega (arith, place, ts)) in
            let size = get_or-set bw.sizes idx (i % 128) (sizes n) 0 (omega (arith, place, zs)) in
            elim (dec_lt i n) [
              | yes r ↦
                  let old = k.held i r (omega arith) in
                  (ground (arith, time, place, old.0), ground (arith, size, place, old.1))
              | no r ↦
                  let same : n ≡ i = omega arith in
                  (
                    ground (arith, time, place, ap times same),
                    ground (arith, size, place, ap sizes same),
                  )
            ]);
      }

  scan_from-transfers :
      (n : ℕ) (bw : Bandwidth F) (cutoff rounds i : ℕ) (s : Scan)
      → Keeps n bw
      → i + rounds ≡ min n 128
      → scan_from bw cutoff (u32 (bw.head + 2 ^ 32 - bw.count)) rounds i s
        ≡ scan_transfers times sizes cutoff rounds (n - min n 128 + i) s
  unfolding scan_from scan_transfers
  scan_from-transfers n bw cutoff zero i s k h = refl
  scan_from-transfers n bw cutoff (suc rounds) i s k h =
      let start = u32 (bw.head + 2 ^ 32 - bw.count) in
      let j = n - min n 128 + i in
      let idx = bit_and (u32 (start + i)) 127 in
      let place : idx ≡ j % 128 =
        omega (arith, bit_and-mask 7 (u32 (start + i)), k.head, k.count) in
      let old = k.held j (omega arith) (omega arith) in
      let time : get_or bw.timestamps idx 0 ≡ times j =
        ap (λ (v : ℕ). get_or bw.timestamps v 0) place ∙ old.0 in
      let size : get_or bw.sizes idx 0 ≡ sizes j =
        ap (λ (v : ℕ). get_or bw.sizes v 0) place ∙ old.1 in
      ap₂ (λ (t z : ℕ). scan_from bw cutoff start rounds (i + 1) (scan_sample cutoff t z s)) time
        size
      ∙ scan_from-transfers n bw cutoff rounds (i + 1) (scan_sample cutoff (times j) (sizes j) s) k
          (omega arith)
      ∙ ap
          (λ (v : ℕ).
            scan_transfers times sizes cutoff rounds v (scan_sample cutoff (times j) (sizes j) s))
          {x = n - min n 128 + (i + 1)} {y = j + 1} (omega arith)

  run-Keeps : (bw : Bandwidth F) → Keeps 0 bw → (n : ℕ) → Keeps n (run_transfers bw n)
  run-Keeps bw k zero = k
  run-Keeps bw k (suc n) = record-Keeps n (run_transfers bw n) (run-Keeps bw k n)

  run-window : (bw : Bandwidth F) (n : ℕ) → (run_transfers bw n).window_ms ≡ bw.window_ms
  unfolding nn_bandwidth_record
  run-window bw zero = refl
  run-window bw (suc n) = run-window bw n

module _ {F : Type 0} (d : Double F) (c : Constants F) where
  -- The earliest time that counts.
  abbrev pub cutoff_at : F → ℕ → ℕ
  cutoff_at window_ms now_ns =
      let window_ns = c.to_u64 (d.mul window_ms c.ns_per_ms) in
      if ltb window_ns now_ns then now_ns - window_ns else 0

  init-Keeps :
      (times sizes : ℕ → ℕ) (window_ms : F) → Keeps times sizes 0 (nn_bandwidth_init d c window_ms)
  unfolding nn_bandwidth_init
  init-Keeps times sizes window_ms = record {
    times_size = length-replicate {A = ℕ} 128 0;
    sizes_size = length-replicate {A = ℕ} 128 0;
    head = refl;
    count = refl;
    held = (λ i p q. absurd (omega arith));
  }

  -- The rate after any number of transfers is 0 if there is none, and else that of the last 128
  -- transfers, or of all if they are fewer, each with its own time and size and in their order.
  pub bandwidth_bps-recent :
      (times sizes : ℕ → ℕ) (window_ms : F) (n now_ns : ℕ)
      → let bw = nn_bandwidth_init d c window_ms in
        let recent =
          scan_transfers times sizes
            (cutoff_at bw.window_ms now_ns)
            (min n 128)
            (n - min n 128)
            (record { total_bytes = 0; oldest = now_ns }) in
        nn_bandwidth_bps d c (run_transfers times sizes bw n) now_ns
        ≡ (if n == 0 then c.zero_f else rate_of d c recent now_ns)
  unfolding nn_bandwidth_bps scan
  bandwidth_bps-recent times sizes window_ms n now_ns =
      let bw = nn_bandwidth_init d c window_ms in
      let last = run_transfers times sizes bw n in
      let k = run-Keeps times sizes bw (init-Keeps times sizes window_ms) n in
      let count = k.count in
      let none : (last.count == 0) ≡ (n == 0) = ground (arith, count) in
      let start : Scan = record { total_bytes = 0; oldest = now_ns } in
      let cutoff = cutoff_at bw.window_ms now_ns in
      let from = u32 (last.head + 2 ^ 32 - last.count) in
      let scanned : scan_from last cutoff from last.count 0 start
          ≡ scan_transfers times sizes cutoff (min n 128) (n - min n 128) start =
        ap (λ (r : ℕ). scan_from last cutoff from r 0 start) count
        ∙ scan_from-transfers times sizes n last cutoff (min n 128) 0 start k (omega arith)
        ∙ ap (λ (v : ℕ). scan_transfers times sizes cutoff (min n 128) v start)
            {x = n - min n 128 + 0} {y = n - min n 128} (omega arith) in
      ap
        (λ w.
          if last.count == 0
          then c.zero_f
          else rate_of d c (scan_from last (cutoff_at w now_ns) from last.count 0 start) now_ns)
        (run-window times sizes bw n)
      ∙ ap₂ (λ b s. if b then c.zero_f else rate_of d c s now_ns) none scanned
