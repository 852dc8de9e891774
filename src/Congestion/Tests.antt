-- ===== src/Congestion/Tests.antt =====
-- The controllers on whole numbers in place of doubles.
use nova_net.Prelude.{ℕ, ◌+◌, ◌-◌, ◌*◌, ◌/◌, ◌≡◌, refl, false, ltb, leb, List, [], ◌∷◌, arith}
use nova_net.Prelude.Int.{pos, pos_part, ◌-ℤ◌}
use nova_net.Congestion.Double.{Double}
use nova_net.Congestion.Aimd.{CongAimd, good, bad}
use nova_net.Congestion.Aimd.Laws.{Tick, IsWithin, run-IsWithin, run-early}
use nova_net.Congestion.Cwnd.{segments, min_mss, nn_cong_cwnd_init}
use nova_net.Congestion.Cwnd.Window.{Op, acked, lost, idle, window-floor}

abbrev whole : Double ℕ
whole = record {
  add = λ x y. x + y;
  sub = λ x y. x - y;
  mul = λ x y. x * y;
  div = λ x y. x / y;
  lt = ltb;
  le = leb;
  from_int = pos_part;
  to_int = pos;
}

-- A controller that turned bad at 2 s and recovers after 3 s.
abbrev stopped : CongAimd ℕ
stopped = record {
  mode = bad;
  send_rate = 30;
  base_rate = 60;
  budget = 0;
  loss_threshold = 1;
  rtt_threshold_ns = pos 250000000;
  recovery_time_ns = pos 3000000000;
  recovery_start_ns = pos 2000000000;
  last_good_ns = pos 0;
}

abbrev ticks : List (Tick ℕ)
ticks =
    (record { dt_sec = 1; loss_frac = 0; srtt_ns = pos 50000000; now_ns = pos 3000000000 })
    ∷ (record { dt_sec = 1; loss_frac = 5; srtt_ns = pos 50000000; now_ns = pos 4000000000 })
    ∷ []

run-IsWithin_example :
    IsWithin (nova_net.Congestion.Aimd.Laws.run whole stopped ticks).recovery_time_ns
run-IsWithin_example = run-IsWithin whole stopped ticks (omega arith)

run-early_example :
    ((nova_net.Congestion.Aimd.Laws.run whole stopped ticks).mode ≡ bad)
    × ((nova_net.Congestion.Aimd.Laws.run whole stopped ticks).send_rate ≡ 30)
unfolding ◌-ℤ◌
run-early_example = run-early whole stopped ticks refl (omega arith)

ltb_irrefl : (x : ℕ) → ltb x x ≡ false
ltb_irrefl x = ground arith

abbrev losses : List Op
losses = lost 7 (pos 1000) ∷ acked (pos 500) ∷ idle (pos 9000000000) (pos 200000000) ∷ []

window-floor_example :
    ltb
      (nova_net.Congestion.Cwnd.Window.run whole (nn_cong_cwnd_init whole 1200) losses).cwnd
      (segments whole min_mss 1200)
    ≡ false
window-floor_example = window-floor whole 1200 ltb_irrefl refl losses
