-- ===== src/Congestion/Aimd/Laws.antt =====
-- The recovery time, the mode, and the budget over ticks.
use nova_net.Prelude.{Bool, ◌≡◌, refl, ap, ◌∙◌, arith, List, [], ◌∷◌}
use nova_net.Prelude.Int.{ℤ, pos, half_ℤ, scale_ℤ, ◌-ℤ◌, ◌≤ℤ◌, ◌<ℤ◌}
use nova_net.Congestion.Double.{Double}
use nova_net.Congestion.Aimd.{
  CongAimd, Mode, good, bad, nn_cong_aimd_tick, nn_cong_aimd_init, nn_cong_aimd_deduct, adjust,
  enter_bad, stay_good, recover, refill, clamp_i64, recovery_min_ns, recovery_max_ns, is_bad_tick,
}

-- What a tick is called with.
pub record Tick (F : Type 0) : Type 0 where
  pub dt_sec : F
  pub loss_frac : F
  pub srtt_ns : ℤ
  pub now_ns : ℤ

-- The controller after ticks in order.
pub run : {F : Type 0} → Double F → CongAimd F → List (Tick F) → CongAimd F
run double c [] = c
run double c (t ∷ ts) =
    run double (nn_cong_aimd_tick double c t.dt_sec t.loss_frac t.srtt_ns t.now_ns) ts

abbrev pub IsWithin : ℤ → Type 0
IsWithin t = (pos recovery_min_ns ≤ℤ t) × (t ≤ℤ pos recovery_max_ns)

clamp-IsWithin : (t : ℤ) → IsWithin (clamp_i64 t (pos recovery_min_ns) (pos recovery_max_ns))
unfolding clamp_i64
clamp-IsWithin t = ground arith

-- The recovery time after the mode's part of a tick.
adjust-IsWithin :
    {F : Type 0} (double : Double F) (m : Mode) (c : CongAimd F) (conditions_bad : Bool)
    (dt_sec : F) (now_ns : ℤ)
    → IsWithin c.recovery_time_ns
    → IsWithin (adjust double m c conditions_bad dt_sec now_ns).recovery_time_ns
unfolding adjust enter_bad stay_good recover
adjust-IsWithin double good c conditions_bad dt_sec now_ns h = ground (
  arith,
  clamp-IsWithin (scale_ℤ 2 c.recovery_time_ns),
  clamp-IsWithin (half_ℤ c.recovery_time_ns),
)
adjust-IsWithin double bad c conditions_bad dt_sec now_ns h = ground arith

pub tick-IsWithin :
    {F : Type 0} (double : Double F) (c : CongAimd F) (t : Tick F)
    → IsWithin c.recovery_time_ns
    → IsWithin (nn_cong_aimd_tick double c t.dt_sec t.loss_frac t.srtt_ns t.now_ns).recovery_time_ns
unfolding nn_cong_aimd_tick refill
tick-IsWithin double c t h =
    adjust-IsWithin double c.mode c (is_bad_tick double c t.loss_frac t.srtt_ns) t.dt_sec t.now_ns h

pub init-IsWithin :
    {F : Type 0} (double : Double F) (base_rate loss_threshold : F) (rtt_threshold_ns : ℤ)
    → IsWithin (nn_cong_aimd_init double base_rate loss_threshold rtt_threshold_ns).recovery_time_ns
unfolding nn_cong_aimd_init
init-IsWithin double base_rate loss_threshold rtt_threshold_ns = (omega arith, omega arith)

pub deduct-IsWithin :
    {F : Type 0} (double : Double F) (c : CongAimd F)
    → IsWithin c.recovery_time_ns
    → IsWithin (nn_cong_aimd_deduct double c).recovery_time_ns
unfolding nn_cong_aimd_deduct
deduct-IsWithin double c h = h

-- Over any ticks a recovery time between one and sixty seconds stays between them.
pub run-IsWithin :
    {F : Type 0} (double : Double F) (c : CongAimd F) (ts : List (Tick F))
    → IsWithin c.recovery_time_ns
    → IsWithin (run double c ts).recovery_time_ns
unfolding run
run-IsWithin double c [] h = h
run-IsWithin double c (t ∷ ts) h =
    run-IsWithin double (nn_cong_aimd_tick double c t.dt_sec t.loss_frac t.srtt_ns t.now_ns) ts
      (tick-IsWithin double c t h)

-- Every tick comes before the recovery time is over.
abbrev pub AllEarly : {F : Type 0} → CongAimd F → List (Tick F) → Type 0
AllEarly c [] = Unit
AllEarly c (t ∷ ts) = ((t.now_ns -ℤ c.recovery_start_ns) <ℤ c.recovery_time_ns) × AllEarly c ts

recover-early :
    {F : Type 0} (double : Double F) (c : CongAimd F) (conditions_bad : Bool) (now_ns : ℤ)
    → (now_ns -ℤ c.recovery_start_ns) <ℤ c.recovery_time_ns
    → recover double c conditions_bad now_ns ≡ c
unfolding recover
recover-early double c conditions_bad now_ns h = ground arith

tick-early :
    {F : Type 0} (double : Double F) (c : CongAimd F) (t : Tick F)
    → c.mode ≡ bad
    → (t.now_ns -ℤ c.recovery_start_ns) <ℤ c.recovery_time_ns
    → nn_cong_aimd_tick double c t.dt_sec t.loss_frac t.srtt_ns t.now_ns ≡ refill double c t.dt_sec
unfolding nn_cong_aimd_tick adjust
tick-early {F = F} double c t e h =
    let conditions_bad = is_bad_tick double c t.loss_frac t.srtt_ns in
    ap (λ (m : Mode). refill double (adjust double m c conditions_bad t.dt_sec t.now_ns) t.dt_sec) e
    ∙ ap (λ (x : CongAimd F). refill double x t.dt_sec)
        (recover-early double c conditions_bad t.now_ns h)

-- Whatever the samples, ticks within the recovery time leave a controller in the bad mode there,
-- with its rate unchanged.
pub run-early :
    {F : Type 0} (double : Double F) (c : CongAimd F) (ts : List (Tick F))
    → c.mode ≡ bad
    → AllEarly c ts
    → ((run double c ts).mode ≡ bad) × ((run double c ts).send_rate ≡ c.send_rate)
unfolding run refill
run-early double c [] e h = (e, refl)
run-early double c (t ∷ ts) e h =
    rw (tick-early double c t e h.0, run)
      (run-early double (refill double c t.dt_sec) ts e
        (later c (refill double c t.dt_sec) ts refl refl h.1))
  where
    later :
        {F : Type 0} (c d : CongAimd F) (ts : List (Tick F))
        → c.recovery_start_ns ≡ d.recovery_start_ns
        → c.recovery_time_ns ≡ d.recovery_time_ns
        → AllEarly c ts
        → AllEarly d ts
    later c d [] p q h = tt
    later c d (t ∷ ts) p q h = (rw (← p, ← q) h.0, later c d ts p q h.1)
