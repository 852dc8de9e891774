-- ===== src/Crypto/Chacha20/Vectors.antt =====
-- The test vectors of RFC 8439, 2.1.1 and 2.3.2.
use nova_net.Prelude.{ℕ, ◌≡◌, refl, List, [], ◌∷◌}
use nova_net.Crypto.Chacha20.{
  quarter_round, rotl32, upper_half, lower_half, quarter_at, double_round, double_rounds, add_words,
}

quarter_round_vector :
    quarter_round (record { a = 0x11111111; b = 0x01020304; c = 0x9b8d6f43; d = 0x01234567 })
    ≡ record { a = 0xea2a92f4; b = 0xcb1cf8ce; c = 0x4581472e; d = 0x5881c4bb }
unfolding quarter_round upper_half lower_half rotl32
quarter_round_vector = refl

abbrev state : List ℕ
state =
    0x61707865 ∷ 0x3320646e ∷ 0x79622d32 ∷ 0x6b206574 ∷ 0x03020100 ∷ 0x07060504 ∷ 0x0b0a0908
    ∷ 0x0f0e0d0c ∷ 0x13121110 ∷ 0x17161514 ∷ 0x1b1a1918 ∷ 0x1f1e1d1c ∷ 0x00000001 ∷ 0x09000000
    ∷ 0x4a000000 ∷ 0x00000000 ∷ []

block_vector :
    add_words (double_rounds 10 state) state
    ≡ 0xe4e7f110 ∷ 0x15593bd1 ∷ 0x1fdd0f50 ∷ 0xc47120a3 ∷ 0xc7f4d1c7 ∷ 0x0368c033 ∷ 0x9aaa2204
      ∷ 0x4e6cd4c3 ∷ 0x466482d2 ∷ 0x09aa9f07 ∷ 0x05d7c214 ∷ 0xa2028bd9 ∷ 0xd19c12b5 ∷ 0xb94e16de
      ∷ 0xe883d0cb ∷ 0x4e3c50a2 ∷ []
unfolding add_words double_rounds double_round quarter_at quarter_round upper_half lower_half rotl32
block_vector = refl
