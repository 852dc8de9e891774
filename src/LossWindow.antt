-- ===== src/LossWindow.antt =====
-- `nn_loss_window` of cbits/nn_seq.c: the last 256 samples, a digit each in four 64-bit words.
pub mod Digits
pub mod Window
pub mod Bytewise
pub mod Popcount
pub mod Percent
pub mod Valid
pub mod Tests
use nova_net.Prelude.{
  ℕ, zero, suc, ◌+◌, ◌-◌, ◌*◌, ◌^◌, bit_and, bit_or, Bool, true, false, List, [], ◌∷◌, get_or, set,
  ltb, leb, if◌then◌else◌, ◌==◌, u32, u64, not64, ◌<<<◌, ◌>>>◌,
}
use nova_net.Prelude.Int.{pos}
use nova_net.Congestion.Double.{Double}

-- `LOSS_WINDOW_SIZE`
abbrev pub loss_window_size : ℕ
loss_window_size = 256

-- `index` is a `uint32_t` that wraps; `count` is an `int` of at most 256.
pub record LossWindow : Type 0 where
  pub bits : List ℕ
  pub index : ℕ
  pub count : ℕ

pub nn_loss_window_init : LossWindow
nn_loss_window_init = record { bits = 0 ∷ 0 ∷ 0 ∷ 0 ∷ []; index = 0; count = 0 }

-- A word with digit `k` written.
pub put_digit : ℕ → ℕ → Bool → ℕ
put_digit word k true = bit_or word (u64 (1 <<< k))
put_digit word k false = bit_and word (not64 (u64 (1 <<< k)))

pub nn_loss_window_record : LossWindow → Bool → LossWindow
nn_loss_window_record lw lost =
    let idx = bit_and lw.index (loss_window_size - 1) in
    let word = idx >>> 6 in
    let k = bit_and idx 63 in
    record {
      bits = set lw.bits word (put_digit (get_or lw.bits word 0) k lost);
      index = u32 (lw.index + 1);
      count = if ltb lw.count loss_window_size then lw.count + 1 else lw.count;
    }

-- The portable branch of `popcount64`.
pub popcount64 : ℕ → ℕ
popcount64 x =
    let x1 = u64 (x + 2 ^ 64 - bit_and (x >>> 1) 0x5555555555555555) in
    let x2 = u64 (bit_and x1 0x3333333333333333 + bit_and (x1 >>> 2) 0x3333333333333333) in
    let x3 = bit_and (u64 (x2 + (x2 >>> 4))) 0x0F0F0F0F0F0F0F0F in
    u64 (x3 * 0x0101010101010101) >>> 56

-- `popcount` is `popcount64`: the builtin of the compiler, or the portable branch above.
module _ (popcount : ℕ → ℕ) where
  -- The loop over the words: `rounds` words are left from word `i` on.
  pub lost_from : ℕ → ℕ → List ℕ → ℕ → ℕ → ℕ
  lost_from zero i bits remaining total = total
  lost_from (suc rounds) i bits remaining total =
      let word = get_or bits i 0 in
      let whole = lost_from rounds (i + 1) bits (remaining - 64) (total + popcount word) in
      let part = total + popcount (bit_and word (u64 (1 <<< remaining) - 1)) in
      if remaining == 0 then total else if leb 64 remaining then whole else part

  -- The numerator of the quotient that `nn_loss_window_percent` returns.
  pub total_lost : LossWindow → ℕ
  total_lost lw = lost_from 4 0 lw.bits lw.count 0

  -- Over what the code uses of the type `double`.
  unfoldable pub nn_loss_window_percent : {F : Type 0} → Double F → LossWindow → F
  nn_loss_window_percent double lw =
      if lw.count == 0
      then double.from_int (pos 0)
      else double.div (double.from_int (pos (total_lost lw))) (double.from_int (pos lw.count))
