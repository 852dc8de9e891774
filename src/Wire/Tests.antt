-- ===== src/Wire/Tests.antt =====
-- Loads and stores on a big-endian host.
use nova_net.Prelude.{ℕ, ◌≡◌, refl, List, [], ◌∷◌, arith}
use nova_net.Wire.{little, nn_read_f32le, nn_read_f64le, nn_write_f32le, nn_write_f64le, big}
use nova_net.Wire.Exchange.{read-write_floats}

abbrev buffer : List ℕ
buffer = 1 ∷ 2 ∷ 3 ∷ 4 ∷ 5 ∷ 6 ∷ 7 ∷ 8 ∷ 9 ∷ 255 ∷ []

-- A float and a double that are their bit patterns, and a host of each kind.
read-write_floats_example :
    (nn_read_f32le little
        (λ v. v)
        (λ v. v)
        (nn_write_f32le big (λ v. v) (λ v. v) buffer 1 0x40490FDB)
        1
      ≡ 0x40490FDB)
    × (nn_read_f64le little
          (λ v. v)
          (λ v. v)
          (nn_write_f64le big (λ v. v) (λ v. v) buffer 1 0x400921FB54442D18)
          1
        ≡ 0x400921FB54442D18)
read-write_floats_example =
    read-write_floats big little (λ v. v) (λ v. v) (λ v. v) (λ v. v) buffer 1 0x40490FDB
      0x400921FB54442D18 refl refl (omega arith) (omega arith) (omega arith) (omega arith)
