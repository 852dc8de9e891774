-- ===== src/Crypto/Siphash/Vectors.antt =====
-- The test vector of SipHash-2-4: the bytes 0 to 14 under the key of the bytes 0 to 15.
use nova_net.Prelude.{ℕ, zero, suc, ◌+◌, ◌≡◌, refl, List, [], ◌∷◌}
use nova_net.Crypto.Siphash.{compress, init_state, finalize, sip_round, nn_rotl64}
use nova_net.Crypto.Siphash.Padding.{padded, siphash_words}

abbrev counting : ℕ → ℕ → List ℕ
counting zero i = []
counting (suc n) i = i ∷ counting n (i + 1)

siphash_vector : siphash_words (counting 16 0) (padded (counting 15 0)) ≡ 0xa129ca6149be45e5
unfolding finalize compress init_state sip_round nn_rotl64
siphash_vector = refl
