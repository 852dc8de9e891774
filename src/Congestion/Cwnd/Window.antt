-- ===== src/Congestion/Cwnd/Window.antt =====
-- The lower limit of the window, and the bytes in flight, over any operations.
use nova_net.Prelude.{ℕ, false, ◌≡◌, refl, ◌∙◌, arith, List, [], ◌∷◌, ap}
use nova_net.Prelude.Int.{ℤ, pos}
use nova_net.Congestion.Double.{Double}
use nova_net.Congestion.Cwnd.{
  CongCwnd, Phase, slow_start, avoidance, recovery, segments, initial_mss, min_mss,
  nn_cong_cwnd_init, grow, at_least, nn_cong_cwnd_on_ack, enter_recovery, lose,
  nn_cong_cwnd_on_loss, nn_cong_cwnd_on_ack_seq, nn_cong_cwnd_check_idle, nn_cong_cwnd_on_send,
}

-- The operations that a connection makes.
pub data Op : Type 0 where
  acked : ℤ → Op
  lost : ℕ → ℤ → Op
  acked_seq : ℕ → ℤ → Op
  idle : ℤ → ℤ → Op
  sent : ℤ → ℤ → Op

pub step : {F : Type 0} → Double F → CongCwnd F → Op → CongCwnd F
step double c (acked bytes) = nn_cong_cwnd_on_ack double c bytes
step double c (lost seq now) = nn_cong_cwnd_on_loss double c seq now
step double c (acked_seq seq bytes) = nn_cong_cwnd_on_ack_seq double c seq bytes
step double c (idle now rto) = nn_cong_cwnd_check_idle double c now rto
step double c (sent size now) = nn_cong_cwnd_on_send double c size now

pub run : {F : Type 0} → Double F → CongCwnd F → List Op → CongCwnd F
run double c [] = c
run double c (op ∷ ops) = run double (step double c op) ops

-- The window is not less than two segments of `mss` bytes.
pub record IsOpen {F : Type 0} (double : Double F) (mss : ℕ) (c : CongCwnd F) : Type 0 where
  pub same_mss : c.mss ≡ mss
  pub floor : double.lt c.cwnd (segments double min_mss mss) ≡ false

module _ {F : Type 0} (double : Double F) (mss : ℕ) (irrefl : (x : F) → double.lt x x ≡ false)
    (ten_two : double.lt (segments double initial_mss mss) (segments double min_mss mss)
      ≡ false) where
  at_least-floor : (low x : F) → double.lt (at_least double low x) low ≡ false
  unfolding at_least
  at_least-floor low x = ground (arith, irrefl low)

  grow-mss : (p : Phase) (c : CongCwnd F) (bytes : ℤ) → (grow double p c bytes).mss ≡ c.mss
  unfolding grow
  grow-mss slow_start c bytes = refl
  grow-mss avoidance c bytes = refl
  grow-mss recovery c bytes = refl

  enter-IsOpen :
      (c : CongCwnd F) (seq : ℕ) (now : ℤ)
      → c.mss ≡ mss
      → IsOpen double mss (enter_recovery double c seq now)
  unfolding enter_recovery
  enter-IsOpen c seq now e = record {
    same_mss = e;
    floor = rw e (
        at_least-floor (segments double min_mss mss) (double.div c.cwnd (double.from_int (pos 2))));
  }

  lose-IsOpen :
      (p : Phase) (c : CongCwnd F) (seq : ℕ) (now : ℤ)
      → IsOpen double mss c
      → IsOpen double mss (lose double p c seq now)
  unfolding lose
  lose-IsOpen slow_start c seq now h = enter-IsOpen c seq now h.same_mss
  lose-IsOpen avoidance c seq now h = enter-IsOpen c seq now h.same_mss
  lose-IsOpen recovery c seq now h = h

  step-IsOpen :
      (c : CongCwnd F) (op : Op) → IsOpen double mss c → IsOpen double mss (step double c op)
  unfolding step nn_cong_cwnd_on_loss nn_cong_cwnd_on_ack nn_cong_cwnd_on_ack_seq
      nn_cong_cwnd_check_idle nn_cong_cwnd_on_send
  step-IsOpen c (acked bytes) h = record {
    same_mss = grow-mss c.phase c bytes ∙ h.same_mss;
    floor =
        ap
          (λ (m : ℕ).
            double.lt
              (at_least double (segments double min_mss m) (grow double c.phase c bytes).cwnd)
              (segments double min_mss mss))
          h.same_mss
        ∙ at_least-floor (segments double min_mss mss) (grow double c.phase c bytes).cwnd;
  }
  step-IsOpen c (lost seq now) h = lose-IsOpen c.phase c seq now h
  step-IsOpen c (acked_seq seq bytes) h = record { same_mss = h.same_mss; floor = h.floor }
  step-IsOpen c (idle now rto) h = ground (arith, ten_two)
  step-IsOpen c (sent size now) h = record { same_mss = h.same_mss; floor = h.floor }

  run-IsOpen :
      (c : CongCwnd F) (ops : List Op) → IsOpen double mss c → IsOpen double mss (run double c ops)
  unfolding run
  run-IsOpen c [] h = h
  run-IsOpen c (op ∷ ops) h = run-IsOpen (step double c op) ops (step-IsOpen c op h)

  -- Over any operations from the start the window is never less than two segments, for a comparison
  -- in which no number is less than itself and ten segments are not less than two.
  pub window-floor :
      (ops : List Op)
      → double.lt (run double (nn_cong_cwnd_init double mss) ops).cwnd (segments double min_mss mss)
        ≡ false
  unfolding nn_cong_cwnd_init
  window-floor ops =
      (run-IsOpen (nn_cong_cwnd_init double mss) ops
        (record { same_mss = refl; floor = ten_two })).floor
