-- ===== src/Fragment/Tests.antt =====
-- A message of ten bytes in payloads of four.
use nova_net.Prelude.{ℕ, ◌≡◌, refl, List, [], ◌∷◌, some, arith}
use nova_net.Wire.{big}
use nova_net.Fragment.{nn_fragment_count}
use nova_net.Fragment.Reassembly.{collect, reassembly}

abbrev message : List ℕ
message = 1 ∷ 2 ∷ 3 ∷ 4 ∷ 5 ∷ 6 ∷ 7 ∷ 8 ∷ 9 ∷ 10 ∷ []

abbrev buffer : List ℕ
buffer = 0 ∷ 0 ∷ 0 ∷ 0 ∷ 0 ∷ 0 ∷ 0 ∷ 0 ∷ 0 ∷ 0 ∷ 0 ∷ []

reassembly_example : collect big message 77 3 4 buffer 3 0 ≡ some message
unfolding nn_fragment_count
reassembly_example =
    reassembly big message 77 3 4 buffer (omega arith) (omega arith) (omega arith) (omega arith)
      (omega arith) refl
