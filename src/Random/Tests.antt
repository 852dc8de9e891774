-- ===== src/Random/Tests.antt =====
-- Random bytes from a source that fills requests of at most 256 bytes and counts them, and a step of the
-- generator.
use nova_net.Prelude.{ℕ, ◌≡◌, ◌+◌, arith, List, replicate, Option, none, some, leb, if◌then◌else◌}
use nova_net.Random.Generator.{nn_rng_next}
use nova_net.Random.Generator.Injective.{rng_state, rng_previous, rng_next-inverse}
use nova_net.Random.Platforms.{linux, random_bytes_on, IsAsGiven, random_bytes_on-IsAsGiven}

abbrev source : ℕ → ℕ → ℕ × Option (List ℕ)
source calls n = (calls + 1, if leb n 256 then some (replicate n 7) else none)

random_bytes_on-IsAsGiven_example :
    IsAsGiven
      (λ calls n. (calls + 1, replicate n 7))
      source
      (λ calls n. (calls + 1, 0, replicate n 7))
      linux
      0
      600
      (random_bytes_on
        (λ calls n. (calls + 1, replicate n 7))
        source
        (λ calls n. (calls + 1, 0, replicate n 7))
        linux
        0
        600)
random_bytes_on-IsAsGiven_example =
    random_bytes_on-IsAsGiven (λ calls n. (calls + 1, replicate n 7)) source
      (λ calls n. (calls + 1, 0, replicate n 7)) linux 0 600

abbrev seed : ℕ
seed = 42

rng_next-inverse_example :
    (rng_state (nn_rng_next seed).0 ≡ (nn_rng_next seed).1)
    × (rng_previous (nn_rng_next seed).1 ≡ seed)
rng_next-inverse_example = rng_next-inverse seed (omega arith)
