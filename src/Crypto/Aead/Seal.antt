-- ===== src/Crypto/Aead/Seal.antt =====
-- What encryption leaves in the buffer.
use nova_net.Prelude.{
  ℕ, ◌+◌, ◌^◌, ◌<◌, ◌≤◌, ◌≡◌, sym, ap, ap₂, ◌∙◌, List, length, some, u32, ltb, if◌then◌else◌, arith,
}
use nova_net.Prelude.Int.{ℤ, pos, ◌-ℤ◌}
use nova_net.Wire.{Endian, IsBytes, store, load, le_bytes}
use nova_net.Wire.Buffer.{load-store_after}
use nova_net.Wire.Bytes.{write_u64-le_bytes}
use nova_net.Wire.Order.{IsBytes-load, length-load}
use nova_net.Crypto.Chacha20.{block_of, chacha20_crypt}
use nova_net.Crypto.Chacha20.Stream.{chacha20_crypt-stream, length-xor_stream, IsBytes-xor_stream}
use nova_net.Crypto.Aead.{mac, to_i32, finish_encrypt, nn_crypto_encrypt}
use nova_net.Crypto.Aead.Spec.{nonce_of, cipher_of, tag_of, build_nonce-nonce_of, mac-tag_of}

-- A 32-bit length as an `int`: from 2^31 on, less 2^32.
abbrev pub as_int : ℕ → ℤ
as_int n = if ltb n (2 ^ 31) then pos n else pos n -ℤ pos (2 ^ 32)

to_i32-as_int : (n : ℕ) → n < 2 ^ 32 → to_i32 n ≡ as_int n
unfolding to_i32 ◌-ℤ◌
to_i32-as_int n h = let e : u32 n ≡ n = omega arith in ground (arith, e)

-- The buffer after the three stores.
abbrev pub sealed : Endian → List ℕ → ℕ → ℕ → List ℕ → ℕ → List ℕ
sealed host key counter protocol_id buf plain_len =
    let nonce = nonce_of counter protocol_id in
    let cipher = cipher_of host key nonce (load buf 8 plain_len) in
    store (store (store buf 0 (le_bytes 8 counter)) 8 cipher) (8 + plain_len)
      (tag_of host key nonce cipher)

module _ (host : Endian) (key : List ℕ) (counter protocol_id : ℕ) (buf : List ℕ) (plain_len : ℕ)
    (c : counter < 2 ^ 64) (p : protocol_id < 2 ^ 32) (b : IsBytes buf)
    (room : plain_len + 24 ≤ length buf) (small : plain_len + 24 < 2 ^ 32) where
  -- Encryption ends and returns the plain text's length and 24, or, when this is 2^31 or more, the
  -- negative number that is 2^32 less; it leaves the counter in the first 8 bytes, the plain text
  -- combined with the key stream of block 1 on behind it, and then the tag of RFC 8439 of that cipher
  -- text, for a buffer of bytes with room for the 24, a length with them below 2^32, a 64-bit counter
  -- and a 32-bit protocol.
  pub encrypt-sealed :
      nn_crypto_encrypt host key counter protocol_id buf plain_len
      ≡ some (as_int (plain_len + 24), sealed host key counter protocol_id buf plain_len)
  unfolding nn_crypto_encrypt finish_encrypt
  encrypt-sealed =
      let nonce = nonce_of counter protocol_id in
      let plain = load buf 8 plain_len in
      let cipher = cipher_of host key nonce plain in
      let buf1 = store buf 0 (le_bytes 8 counter) in
      let len : length cipher ≡ plain_len =
        length-xor_stream host key nonce 1 0 plain ∙ length-load buf 8 plain_len (omega arith) in
      let same : load buf1 8 plain_len ≡ plain =
        load-store_after buf 0 (le_bytes 8 counter) 8 plain_len (omega arith) in
      let total : to_i32 (8 + plain_len + 16) ≡ as_int (plain_len + 24) =
        ap to_i32 {x = 8 + plain_len + 16} {y = plain_len + 24} (omega arith)
        ∙ to_i32-as_int (plain_len + 24) small in
      let tag : mac host (block_of host key nonce 0) cipher plain_len
          ≡ tag_of host key nonce cipher =
        ap (mac host (block_of host key nonce 0) cipher) (sym len)
        ∙ mac-tag_of host key nonce cipher
            (IsBytes-xor_stream host key nonce 1 0 plain (IsBytes-load buf 8 plain_len b))
            (omega (arith, len)) in
      ap₂
        (λ (n : List ℕ) w.
          finish_encrypt host key n w plain_len (chacha20_crypt host key n 1 (load w 8 plain_len)))
        (build_nonce-nonce_of host counter protocol_id c p)
        (write_u64-le_bytes host buf 0 counter c)
      ∙ ap (finish_encrypt host key nonce buf1 plain_len) (
          ap (chacha20_crypt host key nonce 1) same
          ∙ chacha20_crypt-stream host key nonce 1 plain (omega arith))
      ∙ ap₂ (λ (n : ℤ) t. some (n, store (store buf1 8 cipher) (8 + plain_len) t)) total tag
