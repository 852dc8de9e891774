-- ===== src/Random.antt =====
-- cbits/nn_random.c on Linux: the loop over the chunks that `getentropy` fills. The call is a parameter
-- that takes the system's state `W` and a length; `none` is its failure.
pub mod Laws
pub mod Generator
pub mod Platforms
pub mod Tests
use nova_net.Prelude.{
  ℕ, zero, suc, ◌+◌, ◌-◌, List, [], ◌∷◌, ◌++◌, Option, none, some, ltb, if◌then◌else◌,
}

-- `NN_GETENTROPY_MAX`
abbrev pub getentropy_max : ℕ
getentropy_max = 256

-- The buffer is filled, the program aborts, or the fuel of the loop ran out.
pub data Outcome (W : Type 0) : Type 0 where
  filled : W → List ℕ → Outcome W
  aborted : W → Outcome W
  stuck : Outcome W

-- A chunk in front of what the rest of the loop gives.
pub prepend : {W : Type 0} → List ℕ → Outcome W → Outcome W
prepend chunk (filled w rest) = filled w (chunk ++ rest)
prepend chunk (aborted w) = aborted w
prepend chunk stuck = stuck

-- A chunk that the call gave, or its failure, before the rest.
pub after : {W : Type 0} → W → Option (List ℕ) → Outcome W → Outcome W
after w none rest = aborted w
after w (some bytes) rest = prepend bytes rest

module _ {W : Type 0} (getentropy : W → ℕ → W × Option (List ℕ)) where
  pub random_loop : ℕ → W → ℕ → Outcome W
  random_loop zero w len = stuck
  random_loop (suc fuel) w zero = filled w []
  random_loop (suc fuel) w (suc n) =
      let chunk = if ltb (suc n) getentropy_max then suc n else getentropy_max in
      let got = getentropy w chunk in
      let rest = random_loop fuel got.0 (suc n - chunk) in after got.0 got.1 rest

  pub nn_random_bytes : W → ℕ → Outcome W
  nn_random_bytes w len = random_loop (len + 1) w len
