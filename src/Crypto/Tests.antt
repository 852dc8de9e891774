-- ===== src/Crypto/Tests.antt =====
-- The theorems on the cipher, the authenticator and the packets at concrete inputs.
use nova_net.Prelude.{ℕ, ◌-◌, ◌^◌, ◌<◌, ◌≤◌, ◌≡◌, ◌≢◌, List, [], ◌∷◌, replicate, some, arith}
use nova_net.Prelude.Int.{pos}
use nova_net.Wire.{little, big, store, le_bytes}
use nova_net.Crypto.Chacha20.{chacha20_crypt}
use nova_net.Crypto.Chacha20.Stream.{xor_stream, chacha20_crypt-stream}
use nova_net.Crypto.Poly1305.{Limbs}
use nova_net.Crypto.Aead.{ok, err_auth, err_short, nn_crypto_encrypt, nn_crypto_decrypt, mac}
use nova_net.Crypto.Aead.Spec.{cipher_of, tag_of}
use nova_net.Crypto.Aead.Mac.{mac_data, poly1305, mac-poly1305}
use nova_net.Crypto.Aead.Seal.{sealed, encrypt-sealed}
use nova_net.Crypto.Aead.Open.{counter_in, nonce_in, cipher_in, tag_in, nn_crypto_decrypt_lem}
use nova_net.Crypto.Siphash.{nn_siphash_2_4}
use nova_net.Crypto.Siphash.Padding.{padded, siphash_words, siphash-padded}
use nova_net.Crypto.Aead.Roundtrip.{decrypt-encrypt}

-- A key of 32 bytes, and a packet with two bytes of plain text.
abbrev sample_key : List ℕ
sample_key = replicate 32 7

abbrev sample_packet : List ℕ
sample_packet = store (replicate 26 0) 8 (104 ∷ 105 ∷ [])

decrypt-encrypt_example :
    (out : List ℕ) × (nn_crypto_encrypt little sample_key 5 9 sample_packet 2 ≡ some (pos 26, out))
    × (nn_crypto_decrypt little sample_key 9 out 26 0 0
        ≡ some (record {
          status = ok;
          buf = store out 8 (104 ∷ 105 ∷ []);
          counter = 5;
          plain_len = 2;
        }))
decrypt-encrypt_example =
    decrypt-encrypt little sample_key 5 9 sample_packet 2 0 0 (omega arith) (omega arith)
      (omega arith) (omega arith) (omega arith)

nn_crypto_decrypt_lem_example :
    let nonce = nonce_in 9 sample_packet in
    let cipher = cipher_in sample_packet 26 in
    let tag = tag_of big sample_key nonce cipher in
    let got = nn_crypto_decrypt big sample_key 9 sample_packet 26 0 0 in
    (26 < 24
      → got ≡ some (record { status = err_short; buf = sample_packet; counter = 0; plain_len = 0 }))
    × (24 ≤ 26
        → tag_in sample_packet 26 ≢ tag
        → got
          ≡ some (record {
            status = err_auth;
            buf = sample_packet;
            counter = counter_in sample_packet;
            plain_len = 0;
          }))
    × (24 ≤ 26
        → tag_in sample_packet 26 ≡ tag
        → got
          ≡ some (record {
            status = ok;
            buf = store sample_packet 8 (cipher_of big sample_key nonce cipher);
            counter = counter_in sample_packet;
            plain_len = 2;
          }))
nn_crypto_decrypt_lem_example =
    nn_crypto_decrypt_lem big sample_key 9 sample_packet 26 0 0 (omega arith) (omega arith)
      (omega arith) (omega arith)

encrypt-sealed_example :
    nn_crypto_encrypt big sample_key 5 9 sample_packet 2
    ≡ some (pos 26, sealed big sample_key 5 9 sample_packet 2)
encrypt-sealed_example =
    encrypt-sealed big sample_key 5 9 sample_packet 2 (omega arith) (omega arith) (omega arith)
      (omega arith) (omega arith)

mac-poly1305_example :
    mac big sample_key (1 ∷ 2 ∷ 3 ∷ []) 3
    ≡ le_bytes 16 (poly1305 sample_key (mac_data (1 ∷ 2 ∷ 3 ∷ [])))
mac-poly1305_example =
    mac-poly1305 big sample_key (1 ∷ 2 ∷ 3 ∷ []) (omega arith) (omega arith) (omega arith)
      (omega arith)

chacha20_crypt-stream_example :
    chacha20_crypt little sample_key (replicate 12 3) 1 (1 ∷ 2 ∷ 3 ∷ [])
    ≡ some (xor_stream little sample_key (replicate 12 3) 1 0 (1 ∷ 2 ∷ 3 ∷ []))
chacha20_crypt-stream_example =
    chacha20_crypt-stream little sample_key (replicate 12 3) 1 (1 ∷ 2 ∷ 3 ∷ []) (omega arith)

abbrev sample_limbs : Limbs
sample_limbs = record { l0 = 2 ^ 26 - 1; l1 = 3; l2 = 2 ^ 26 - 1; l3 = 0; l4 = 2 ^ 25 }

siphash-padded_example :
    nn_siphash_2_4 big sample_key (1 ∷ 2 ∷ 3 ∷ []) 3
    ≡ siphash_words sample_key (padded (1 ∷ 2 ∷ 3 ∷ []))
siphash-padded_example =
    siphash-padded big sample_key (1 ∷ 2 ∷ 3 ∷ []) (omega arith) (omega arith) (omega arith)
