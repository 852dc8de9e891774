-- ===== src/Crypto/Aead/Roundtrip.antt =====
-- Decryption of what encryption sealed.
use nova_net.Prelude.{
  ℕ, ◌+◌, ◌-◌, ◌^◌, ◌<◌, ◌≤◌, ◌≡◌, sym, ap, ap₂, ◌∙◌, List, length, Option, some, arith,
}
use nova_net.Wire.{Endian, IsBytes, store, load, le_value, le_bytes}
use nova_net.Wire.Buffer.{length-store, load-store, load-store_before}
use nova_net.Wire.Bytes.{IsBytes-store, IsBytes-le_bytes}
use nova_net.Wire.Order.{IsBytes-load, length-load}
use nova_net.Crypto.Chacha20.Stream.{length-xor_stream, IsBytes-xor_stream, xor_stream_twice}
use nova_net.Crypto.Aead.{ok, Decrypted, nn_crypto_encrypt, nn_crypto_decrypt}
use nova_net.Crypto.Aead.Spec.{nonce_of, cipher_of, tag_of, tag_of-IsBytes}
use nova_net.Prelude.Int.{ℤ, pos}
use nova_net.Crypto.Aead.Seal.{sealed, as_int, encrypt-sealed}
use nova_net.Crypto.Aead.Open.{counter_in, nonce_in, cipher_in, tag_in, nn_crypto_decrypt_lem}

le_value-le_bytes : (v : ℕ) → v < 2 ^ 64 → le_value (le_bytes 8 v) ≡ v
le_value-le_bytes v h = omega arith

-- A load of the whole of what was stored, in its length.
load-store_whole :
    (buf : List ℕ) (off n : ℕ) (bs : List ℕ)
    → length bs ≡ n
    → off + n ≤ length buf
    → load (store buf off bs) off n ≡ bs
load-store_whole buf off n bs e h =
    ap (load (store buf off bs) off) (sym e) ∙ load-store buf off bs (omega arith)

as_int-pos : (n : ℕ) → n < 2 ^ 31 → as_int n ≡ pos n
as_int-pos n h = ground arith

module _ (host : Endian) (key : List ℕ) (counter protocol_id : ℕ) (buf : List ℕ) (plain_len : ℕ)
    (c : counter < 2 ^ 64) (b : IsBytes buf) (room : plain_len + 24 ≤ length buf) where
  abbrev plain : List ℕ
  plain = load buf 8 plain_len

  abbrev cipher : List ℕ
  cipher = cipher_of host key (nonce_of counter protocol_id) plain

  abbrev tag : List ℕ
  tag = tag_of host key (nonce_of counter protocol_id) cipher

  abbrev front : List ℕ
  front = store buf 0 (le_bytes 8 counter)

  abbrev middle : List ℕ
  middle = store front 8 cipher

  abbrev out : List ℕ
  out = sealed host key counter protocol_id buf plain_len

  plain-IsBytes : IsBytes plain × (length plain ≡ plain_len)
  plain-IsBytes = (IsBytes-load buf 8 plain_len b, length-load buf 8 plain_len (omega arith))

  cipher-IsBytes : IsBytes cipher × (length cipher ≡ plain_len)
  cipher-IsBytes =
      let nonce = nonce_of counter protocol_id in
      (
        IsBytes-xor_stream host key nonce 1 0 plain plain-IsBytes.0,
        length-xor_stream host key nonce 1 0 plain ∙ plain-IsBytes.1,
      )

  tag-IsBytes : IsBytes tag × (length tag ≡ 16)
  tag-IsBytes = tag_of-IsBytes host key (nonce_of counter protocol_id) cipher

  out-IsBytes : IsBytes out × (length out ≡ length buf) × (length middle ≡ length buf)
  out-IsBytes =
      let f = IsBytes-store buf 0 (le_bytes 8 counter) b (IsBytes-le_bytes 8 counter) in
      let m = IsBytes-store front 8 cipher f cipher-IsBytes.0 in
      let len = length-store front 8 cipher ∙ length-store buf 0 (le_bytes 8 counter) in
      (
        IsBytes-store middle (8 + plain_len) tag m tag-IsBytes.0,
        length-store middle (8 + plain_len) tag ∙ len,
        len,
      )

  -- The fields that decryption reads are those that were written.
  counter-in : counter_in out ≡ counter
  counter-in =
      ap le_value (
        load-store_before middle (8 + plain_len) tag 0 8 (omega arith)
        ∙ load-store_before front 8 cipher 0 8 (omega arith)
        ∙ load-store buf 0 (le_bytes 8 counter) (omega arith))
      ∙ le_value-le_bytes counter c

  cipher-in : cipher_in out (plain_len + 24) ≡ cipher
  cipher-in =
      ap (load out 8) {x = plain_len + 24 - 24} {y = plain_len} (omega arith)
      ∙ load-store_before middle (8 + plain_len) tag 8 plain_len (omega arith)
      ∙ load-store_whole front 8 plain_len cipher cipher-IsBytes.1
          (omega (arith, length-store buf 0 (le_bytes 8 counter)))

  tag-in : tag_in out (plain_len + 24) ≡ tag
  tag-in =
      ap (λ (o : ℕ). load out o 16) {x = plain_len + 24 - 16} {y = 8 + plain_len} (omega arith)
      ∙ load-store_whole middle (8 + plain_len) 16 tag tag-IsBytes.1 (omega (arith, out-IsBytes))

-- Encryption of a buffer of bytes with room for the overhead and a total length below 2^31, for a 64-bit
-- counter and a 32-bit protocol, and decryption of the result with the same key
-- and protocol: both end; the first returns the plain text's length and 24, and the second succeeds,
-- returns the counter and the length, and leaves the plain text in place of the cipher text.
pub decrypt-encrypt :
    (host : Endian) (key : List ℕ) (counter protocol_id : ℕ) (buf : List ℕ) (plain_len : ℕ)
    (counter0 plain_len0 : ℕ)
    → counter < 2 ^ 64
    → protocol_id < 2 ^ 32
    → IsBytes buf
    → plain_len + 24 ≤ length buf
    → plain_len + 24 < 2 ^ 31
    → (out : List ℕ) × (nn_crypto_encrypt host key counter protocol_id buf plain_len
        ≡ some (pos (plain_len + 24), out))
      × (nn_crypto_decrypt host key protocol_id out (plain_len + 24) counter0 plain_len0
          ≡ some (record {
            status = ok;
            buf = store out 8 (load buf 8 plain_len);
            counter = counter;
            plain_len = plain_len;
          }))
decrypt-encrypt host key counter protocol_id buf plain_len counter0 plain_len0 c p b room small =
    let out = sealed host key counter protocol_id buf plain_len in
    let same_counter = counter-in host key counter protocol_id buf plain_len c b room in
    let same_cipher = cipher-in host key counter protocol_id buf plain_len c b room in
    let same_nonce : nonce_in protocol_id out ≡ nonce_of counter protocol_id =
      ap (λ (n : ℕ). nonce_of n protocol_id) same_counter in
    let same_tag =
      tag-in host key counter protocol_id buf plain_len c b room
      ∙ sym (ap₂ (tag_of host key) same_nonce same_cipher) in
    let (out_bytes, out_len, _) = out-IsBytes host key counter protocol_id buf plain_len c b room in
    let opened =
      (nn_crypto_decrypt_lem host key protocol_id out (plain_len + 24) counter0 plain_len0 p
          out_bytes (omega (arith, out_len)) (omega arith)).2
        (omega arith) same_tag in
    let result : List ℕ → ℕ → ℕ → Option Decrypted = (λ plain got n.
      some (record { status = ok; buf = store out 8 plain; counter = got; plain_len = n })) in
    let back : cipher_of host key (nonce_in protocol_id out) (cipher_in out (plain_len + 24))
        ≡ load buf 8 plain_len =
      ap₂ (cipher_of host key) same_nonce same_cipher
      ∙ xor_stream_twice host key (nonce_of counter protocol_id) 1 0 (load buf 8 plain_len)
          (IsBytes-load buf 8 plain_len b) in
    (
      out,
      encrypt-sealed host key counter protocol_id buf plain_len c p b room (omega arith)
          ∙ ap (λ (n : ℤ). some (n, out)) (as_int-pos (plain_len + 24) small),
      opened
          ∙ ap₂ (λ bs (got : ℕ). result bs got (plain_len + 24 - 24)) back same_counter
          ∙ ap (result (load buf 8 plain_len) counter) (omega arith),
    )
