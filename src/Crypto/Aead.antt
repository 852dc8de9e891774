-- ===== src/Crypto/Aead.antt =====
-- `nn_crypto_encrypt` and `nn_crypto_decrypt`. The nonce on the wire is the packet's counter.
pub mod Mac
pub mod Spec
pub mod Compare
pub mod Seal
pub mod Open
pub mod Roundtrip
use nova_net.Prelude.{
  ℕ, zero, suc, ◌+◌, ◌-◌, ◌^◌, List, [], ◌∷◌, replicate, bit_and, bit_or, bit_xor, Bool, true,
  false, Option, none, some, ltb, ◌==◌, if◌then◌else◌, u32, u64,
}
use nova_net.Prelude.Int.{ℤ, pos, negsuc}
use nova_net.Wire.{Endian, store, load, nn_read_u64le, nn_write_u32le, nn_write_u64le}
use nova_net.Crypto.Chacha20.{block_of, chacha20_crypt, chacha20_nonce_size}
use nova_net.Crypto.Poly1305.{Poly1305State, poly1305_init, poly1305_blocks, poly1305_finish}

-- `NN_CRYPTO_NONCE_SIZE`, `NN_CRYPTO_TAG_SIZE` and `NN_CRYPTO_OVERHEAD`
abbrev pub crypto_nonce_size : ℕ
crypto_nonce_size = 8

abbrev pub crypto_tag_size : ℕ
crypto_tag_size = 16

abbrev pub crypto_overhead : ℕ
crypto_overhead = 24

-- `NN_POLY1305_BLOCK_MASK`
abbrev pub poly1305_block_mask : ℕ
poly1305_block_mask = 2 ^ 64 - 16

-- `NN_CRYPTO_OK`, `NN_CRYPTO_ERR_AUTH` and `NN_CRYPTO_ERR_SHORT`
pub data Status : Type 0 where
  ok err_auth err_short : Status

-- The cast of a length to `int`: its low 32 bits, read with a sign.
pub to_i32 : ℕ → ℤ
to_i32 n = let w = u32 n in if ltb w (2 ^ 31) then pos w else negsuc (2 ^ 32 - w - 1)

-- What `nn_crypto_decrypt` leaves: its result, the buffer, `*out_counter` and `*out_plain_len`.
pub record Decrypted : Type 0 where
  pub status : Status
  pub buf : List ℕ
  pub counter : ℕ
  pub plain_len : ℕ

abbrev pub zeros_16 : List ℕ
zeros_16 = replicate 16 0

-- The loop of the comparison, over the bytes of both tags.
pub tag_diff : ℕ → List ℕ → List ℕ → ℕ
tag_diff diff [] recv = diff
tag_diff diff (x ∷ xs) [] = diff
tag_diff diff (x ∷ xs) (y ∷ recv) = tag_diff (bit_or diff (bit_xor x y)) xs recv

module _ (host : Endian) where
  pub build_nonce : ℕ → ℕ → List ℕ
  build_nonce counter protocol_id =
      nn_write_u32le host (nn_write_u64le host (replicate chacha20_nonce_size 0) 0 counter) 8
        protocol_id

  -- The authenticator over whole blocks of the cipher text, over the rest of it with zeros behind,
  -- and over the block of the lengths.
  pub mac_state : List ℕ → List ℕ → ℕ → Poly1305State
  mac_state poly_key_block cipher cipher_len =
      let pst = poly1305_init host poly_key_block in
      let full = bit_and cipher_len poly1305_block_mask in
      let pst1 = if ltb 0 full then poly1305_blocks host pst cipher full false else pst in
      let rem = cipher_len - full in
      let last_block = store zeros_16 0 (load cipher full rem) in
      let pst2 = if ltb 0 rem then poly1305_blocks host pst1 last_block 16 false else pst1 in
      let lengths = nn_write_u64le host (nn_write_u64le host zeros_16 0 0) 8 (u64 cipher_len) in
      poly1305_blocks host pst2 lengths 16 false

  -- The sixteen bytes of the tag.
  pub mac : List ℕ → List ℕ → ℕ → List ℕ
  mac poly_key_block cipher cipher_len =
      poly1305_finish host (mac_state poly_key_block cipher cipher_len) [] 0 zeros_16

  -- The end of the call, over the cipher text.
  pub finish_encrypt : List ℕ → List ℕ → List ℕ → ℕ → Option (List ℕ) → Option (ℤ × List ℕ)
  finish_encrypt key nonce buf plain_len none = none
  finish_encrypt key nonce buf plain_len (some cipher) =
      let poly_key_block = block_of host key nonce 0 in
      some (
        to_i32 (crypto_nonce_size + plain_len + crypto_tag_size),
        store (store buf crypto_nonce_size cipher) (crypto_nonce_size + plain_len)
            (mac poly_key_block cipher plain_len),
      )

  -- The returned `int` and the buffer; `none` only if the fuel of
  -- the cipher ran out.
  pub nn_crypto_encrypt : List ℕ → ℕ → ℕ → List ℕ → ℕ → Option (ℤ × List ℕ)
  nn_crypto_encrypt key counter protocol_id buf plain_len =
      let nonce = build_nonce counter protocol_id in
      let buf1 = nn_write_u64le host buf 0 counter in
      finish_encrypt key nonce buf1 plain_len
        (chacha20_crypt host key nonce 1 (load buf1 crypto_nonce_size plain_len))

  -- The end of the call, over the plain text.
  pub finish_decrypt : List ℕ → ℕ → ℕ → Option (List ℕ) → Option Decrypted
  finish_decrypt buf counter cipher_len none = none
  finish_decrypt buf counter cipher_len (some plain) = some (record {
    status = ok;
    buf = store buf crypto_nonce_size plain;
    counter = counter;
    plain_len = cipher_len;
  })

  -- The call on a packet that is long enough, with the counter on the wire and the nonce it makes.
  pub decrypt_with : List ℕ → List ℕ → ℕ → ℕ → ℕ → List ℕ → Option Decrypted
  decrypt_with key buf total_len plain_len counter nonce =
      let cipher_len = total_len - crypto_nonce_size - crypto_tag_size in
      let cipher = load buf crypto_nonce_size cipher_len in
      let recv_tag = load buf (crypto_nonce_size + cipher_len) crypto_tag_size in
      let poly_key_block = block_of host key nonce 0 in
      let diff = tag_diff 0 (mac poly_key_block cipher cipher_len) recv_tag in
      let plain = chacha20_crypt host key nonce 1 cipher in
      let opened = finish_decrypt buf counter cipher_len plain in
      if diff == 0
      then opened
      else some (record { status = err_auth; buf = buf; counter = counter; plain_len = plain_len })

  -- `counter` and `plain_len` are what `*out_counter` and `*out_plain_len` hold before the call.
  pub nn_crypto_decrypt : List ℕ → ℕ → List ℕ → ℕ → ℕ → ℕ → Option Decrypted
  nn_crypto_decrypt key protocol_id buf total_len counter plain_len =
      let got = nn_read_u64le host buf 0 in
      if ltb total_len crypto_overhead
      then some (record { status = err_short; buf = buf; counter = counter; plain_len = plain_len })
      else decrypt_with key buf total_len plain_len got (build_nonce got protocol_id)
