-- ===== src/Congestion/Aimd.antt =====
-- `nn_cong_aimd_*`: the mode machine with additive increase and multiplicative decrease.
use nova_net.Prelude.{ℕ, Bool, true, false, not, ◌&&◌, ◌||◌, if◌then◌else◌}
use nova_net.Prelude.Int.{ℤ, pos, ◌+ℤ◌, ◌-ℤ◌, ltb_ℤ, leb_ℤ, eqb_ℤ, half_ℤ, scale_ℤ}
use nova_net.Congestion.Double.{Double}
pub mod Laws

-- `NN_CONG_RECOVERY_MIN_NS`, `NN_CONG_RECOVERY_MAX_NS`, `NN_CONG_RECOVERY_DOUBLE_NS` and
-- `NN_CONG_RECOVERY_HALVE_NS`
abbrev pub recovery_min_ns : ℕ
recovery_min_ns = 1000000000

abbrev pub recovery_max_ns : ℕ
recovery_max_ns = 60000000000

abbrev pub recovery_double_ns : ℕ
recovery_double_ns = 5000000000

abbrev pub recovery_halve_ns : ℕ
recovery_halve_ns = 10000000000

-- `nn_cong_mode`
pub data Mode : Type 0 where
  good bad : Mode

pub record CongAimd (F : Type 0) : Type 0 where
  pub mode : Mode
  pub send_rate : F
  pub base_rate : F
  pub budget : F
  pub loss_threshold : F
  pub rtt_threshold_ns : ℤ
  pub recovery_time_ns : ℤ
  pub recovery_start_ns : ℤ
  pub last_good_ns : ℤ

pub clamp_i64 : ℤ → ℤ → ℤ → ℤ
clamp_i64 val lo hi = if ltb_ℤ val lo then lo else if ltb_ℤ hi val then hi else val

module _ {F : Type 0} (double : Double F) where
  -- 1.0, which is both `NN_CONG_AIMD_INCREASE` and `NN_CONG_AIMD_MIN_RATE`; the factors
  -- `NN_CONG_AIMD_DECREASE`, 0.5, and `NN_CONG_AIMD_MAX_MULTIPLIER`, 4.0.
  abbrev pub one : F
  one = double.from_int (pos 1)

  abbrev pub decrease : F
  decrease = double.div one (double.from_int (pos 2))

  abbrev pub max_multiplier : F
  max_multiplier = double.from_int (pos 4)

  pub nn_cong_aimd_init : F → F → ℤ → CongAimd F
  nn_cong_aimd_init base_rate loss_threshold rtt_threshold_ns = record {
    mode = good;
    send_rate = base_rate;
    base_rate = base_rate;
    budget = double.from_int (pos 0);
    loss_threshold = loss_threshold;
    rtt_threshold_ns = rtt_threshold_ns;
    recovery_time_ns = pos recovery_min_ns;
    recovery_start_ns = pos 0;
    last_good_ns = pos 0;
  }

  -- From good to bad: the rate is halved, and the recovery time doubled after a short good phase.
  pub enter_bad : CongAimd F → ℤ → CongAimd F
  enter_bad c now_ns =
      let rate = double.mul c.send_rate decrease in
      let soon =
        ltb_ℤ (pos 0) c.recovery_start_ns
        && ltb_ℤ (now_ns -ℤ c.recovery_start_ns) (pos recovery_double_ns) in
      record c {
        mode = bad;
        send_rate = if double.lt rate one then one else rate;
        recovery_time_ns =
            if soon
            then clamp_i64 (scale_ℤ 2 c.recovery_time_ns) (pos recovery_min_ns)
                (pos recovery_max_ns)
            else c.recovery_time_ns;
        recovery_start_ns = now_ns;
        last_good_ns = pos 0;
      }

  -- A tick that stays good: the rate rises, and the recovery time is halved after a long one.
  pub stay_good : CongAimd F → F → ℤ → CongAimd F
  stay_good c dt_sec now_ns =
      let max_rate = double.mul c.base_rate max_multiplier in
      let rate = double.add c.send_rate (double.mul one dt_sec) in
      let last_good = if eqb_ℤ c.last_good_ns (pos 0) then now_ns else c.last_good_ns in
      let long = leb_ℤ (pos recovery_halve_ns) (now_ns -ℤ last_good) in
      record c {
        send_rate = if double.lt max_rate rate then max_rate else rate;
        recovery_time_ns =
            if long
            then clamp_i64 (half_ℤ c.recovery_time_ns) (pos recovery_min_ns) (pos recovery_max_ns)
            else c.recovery_time_ns;
        last_good_ns = if long then now_ns else last_good;
      }

  -- A tick in the bad mode.
  pub recover : CongAimd F → Bool → ℤ → CongAimd F
  recover c conditions_bad now_ns =
      if not conditions_bad && leb_ℤ c.recovery_time_ns (now_ns -ℤ c.recovery_start_ns)
      then record c { mode = good; last_good_ns = now_ns }
      else c

  pub refill : CongAimd F → F → CongAimd F
  refill c dt_sec =
      let budget = double.add c.budget (double.mul c.send_rate dt_sec) in
      record c { budget = if double.lt c.send_rate budget then c.send_rate else budget }

  abbrev pub is_bad_tick : CongAimd F → F → ℤ → Bool
  is_bad_tick c loss_frac srtt_ns =
      double.lt c.loss_threshold loss_frac || ltb_ℤ c.rtt_threshold_ns srtt_ns

  -- The tick up to the refill.
  pub adjust : Mode → CongAimd F → Bool → F → ℤ → CongAimd F
  adjust good c conditions_bad dt_sec now_ns =
      if conditions_bad then enter_bad c now_ns else stay_good c dt_sec now_ns
  adjust bad c conditions_bad dt_sec now_ns = recover c conditions_bad now_ns

  pub nn_cong_aimd_tick : CongAimd F → F → F → ℤ → ℤ → CongAimd F
  nn_cong_aimd_tick c dt_sec loss_frac srtt_ns now_ns =
      refill (adjust c.mode c (is_bad_tick c loss_frac srtt_ns) dt_sec now_ns) dt_sec

  pub nn_cong_aimd_can_send : CongAimd F → Bool
  nn_cong_aimd_can_send c = double.le one c.budget

  pub nn_cong_aimd_deduct : CongAimd F → CongAimd F
  nn_cong_aimd_deduct c = record c { budget = double.sub c.budget one }

  pub nn_cong_aimd_rate : CongAimd F → F
  nn_cong_aimd_rate c = c.send_rate
