-- ===== src/Crypto/Aead/Spec.antt =====
-- RFC 8439 as the codec uses it: the nonce, the cipher text and the tag as functions of the key, the
-- packet's counter and the data.
use nova_net.Prelude.{ℕ, ◌^◌, ◌<◌, ◌≡◌, ap, ◌∙◌, List, ◌++◌, length, replicate, arith}
use nova_net.Wire.{Endian, IsBytes, store, le_bytes, nn_write_u32le}
use nova_net.Wire.Buffer.{length-le_bytes}
use nova_net.Wire.Bytes.{IsBytes-le_bytes, write_u32-le_bytes, write_u64-le_bytes}
use nova_net.Crypto.Chacha20.{block_of, chacha20_setup}
use nova_net.Crypto.Chacha20.Block.{block-IsBytes}
use nova_net.Crypto.Chacha20.Stream.{xor_stream}
use nova_net.Crypto.Aead.{build_nonce, mac}
use nova_net.Crypto.Aead.Mac.{mac_data, poly1305, mac-poly1305}

pub nonce_of : ℕ → ℕ → List ℕ
nonce_of counter protocol_id = le_bytes 8 counter ++ le_bytes 4 protocol_id

-- The key stream from block 1 on, and the tag under the key of block 0.
abbrev pub cipher_of : Endian → List ℕ → List ℕ → List ℕ → List ℕ
cipher_of host key nonce bs = xor_stream host key nonce 1 0 bs

pub tag_of : Endian → List ℕ → List ℕ → List ℕ → List ℕ
tag_of host key nonce cipher = le_bytes 16 (poly1305 (block_of host key nonce 0) (mac_data cipher))

pub build_nonce-nonce_of :
    (host : Endian) (counter protocol_id : ℕ)
    → counter < 2 ^ 64
    → protocol_id < 2 ^ 32
    → build_nonce host counter protocol_id ≡ nonce_of counter protocol_id
unfolding build_nonce nonce_of
build_nonce-nonce_of host counter protocol_id p q =
    ap (λ bs. nn_write_u32le host bs 8 protocol_id)
      (write_u64-le_bytes host (replicate 12 0) 0 counter p)
    ∙ write_u32-le_bytes host (store (replicate 12 0) 0 (le_bytes 8 counter)) 8 protocol_id q

pub mac-tag_of :
    (host : Endian) (key nonce cipher : List ℕ)
    → IsBytes cipher
    → length cipher < 2 ^ 64
    → mac host (block_of host key nonce 0) cipher (length cipher) ≡ tag_of host key nonce cipher
unfolding tag_of
mac-tag_of host key nonce cipher c h =
    let (b, l) = block-IsBytes host (chacha20_setup host key 0 nonce) in
    mac-poly1305 host (block_of host key nonce 0) cipher b (omega (arith, l)) c h

pub tag_of-IsBytes :
    (host : Endian) (key nonce cipher : List ℕ)
    → IsBytes (tag_of host key nonce cipher) × (length (tag_of host key nonce cipher) ≡ 16)
unfolding tag_of
tag_of-IsBytes host key nonce cipher =
    let value = poly1305 (block_of host key nonce 0) (mac_data cipher) in
    (IsBytes-le_bytes 16 value, length-le_bytes 16 value)
