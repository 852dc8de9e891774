-- ===== src/Seq.antt =====
-- cbits/nn_seq.h: 16-bit sequence numbers, compared with half-range wraparound, and the place of a
-- number in a ring of 256 slots.
pub mod Order
pub mod Tests
use nova_net.Prelude.{ℕ, ◌-◌, bit_and, Bool, ◌&&◌, ◌||◌, ltb, leb, if◌then◌else◌}
use nova_net.Prelude.Int.{ℤ, pos, negsuc, ◌+ℤ◌, ◌-ℤ◌, ltb_ℤ}

-- `NN_SEQ_HALF_RANGE`, `NN_SEQ_RING_SIZE` and `NN_SEQ_RING_MASK`
abbrev pub half_range : ℕ
half_range = 32768

abbrev pub ring_size : ℕ
ring_size = 256

abbrev pub ring_mask : ℕ
ring_mask = 255

-- The operands are promoted to `int`, so the differences do not wrap.
unfoldable pub nn_seq_gt : ℕ → ℕ → Bool
nn_seq_gt s1 s2 = (ltb s2 s1 && leb (s1 - s2) half_range) || (ltb s1 s2 && ltb half_range (s2 - s1))

unfoldable pub nn_seq_diff : ℕ → ℕ → ℤ
nn_seq_diff s1 s2 =
    let diff = pos s1 -ℤ pos s2 in
    let diff' = if ltb_ℤ (pos half_range) diff then diff -ℤ pos 65536 else diff in
    if ltb_ℤ diff' (negsuc 32767) then diff' +ℤ pos 65536 else diff'

-- `seq & NN_SEQ_RING_MASK`
unfoldable pub slot : ℕ → ℕ
slot seq = bit_and seq ring_mask
