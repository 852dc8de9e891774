-- ===== src/Random/Generator.antt =====
-- `nn_rng_next` of cbits/nn_seq.h, the generator of the simulations.
pub mod Injective
use nova_net.Prelude.Int.{pos}
use nova_net.Congestion.Double.{Double}
use nova_net.Prelude.{ℕ, ◌+◌, ◌*◌, ◌/◌, ◌%◌, ◌^◌, bit_xor, u64, ◌>>>◌}

-- The finalizer's `z ^ (z >> k)`.
pub xor_shift : ℕ → ℕ → ℕ
xor_shift k z = bit_xor z (z >>> k)

-- The output and the new state.
pub nn_rng_next : ℕ → ℕ × ℕ
nn_rng_next state =
    let s = u64 (state * 6364136223846793005 + 1442695040888963407) in
    let z = u64 (xor_shift 30 s * 0xBF58476D1CE4E5B9) in
    let z' = u64 (xor_shift 27 z * 0x94D049BB133111EB) in (xor_shift 31 z', s)

-- A draw from [0, 1): the top 53 digits, which a double holds, times 2^-53.
pub nn_rng_double : {F : Type 0} → Double F → ℕ → F
nn_rng_double double val =
    double.mul (double.from_int (pos (val >>> 11)))
      (double.div (double.from_int (pos 1)) (double.from_int (pos 9007199254740992)))
