-- ===== src/Crypto/Aead/Open.antt =====
-- What decryption returns on each branch.
use nova_net.Prelude.{
  ==_iff, Bool-cases, inl, inr, ℕ, ◌+◌, ◌-◌, ◌^◌, ◌<◌, ◌≤◌, ◌≡◌, ◌≢◌, refl, sym, ap, ap₂, ◌∙◌, List,
  length, Option, some, lt→ltb, le→ltb, ◌==◌, true, false, if◌then◌else◌, arith,
}
use nova_net.Wire.{Endian, IsBytes, store, load, le_value}
use nova_net.Wire.Order.{IsBytes-load, length-load, read_u64-le_value}
use nova_net.Wire.Bytes.{le_value-lt}
use nova_net.Crypto.Chacha20.{chacha20_crypt, block_of}
use nova_net.Crypto.Chacha20.Stream.{chacha20_crypt-stream}
use nova_net.Crypto.Aead.{
  ok, err_auth, err_short, Decrypted, mac, tag_diff, build_nonce, decrypt_with, finish_decrypt,
  nn_crypto_decrypt,
}
use nova_net.Crypto.Aead.Spec.{
  nonce_of, cipher_of, tag_of, build_nonce-nonce_of, mac-tag_of, tag_of-IsBytes,
}
use nova_net.Crypto.Aead.Compare.{tag_diff-equal, tag_diff_self}

-- The counter, the nonce, the cipher text and the tag that the buffer holds.
abbrev pub counter_in : List ℕ → ℕ
counter_in buf = le_value (load buf 0 8)

abbrev pub nonce_in : ℕ → List ℕ → List ℕ
nonce_in protocol_id buf = nonce_of (counter_in buf) protocol_id

abbrev pub cipher_in : List ℕ → ℕ → List ℕ
cipher_in buf total_len = load buf 8 (total_len - 24)

abbrev pub tag_in : List ℕ → ℕ → List ℕ
tag_in buf total_len = load buf (total_len - 16) 16

module _ (host : Endian) (key : List ℕ) (protocol_id : ℕ) (buf : List ℕ)
    (total_len counter plain_len : ℕ) (p : protocol_id < 2 ^ 32) (b : IsBytes buf)
    (room : total_len ≤ length buf) (small : total_len < 2 ^ 64) where
  decrypt-short :
      total_len < 24
      → nn_crypto_decrypt host key protocol_id buf total_len counter plain_len
        ≡ some (record { status = err_short; buf = buf; counter = counter; plain_len = plain_len })
  unfolding nn_crypto_decrypt
  decrypt-short h = rw (lt→ltb total_len 24 h) refl

  -- The result that the comparison of the tags selects.
  abbrev selected : Option Decrypted
  selected =
      let nonce = nonce_in protocol_id buf in
      let cipher = cipher_in buf total_len in
      if tag_diff 0 (tag_of host key nonce cipher) (tag_in buf total_len) == 0
      then some (record {
        status = ok;
        buf = store buf 8 (cipher_of host key nonce cipher);
        counter = counter_in buf;
        plain_len = total_len - 24;
      })
      else some
          (record { status = err_auth; buf = buf; counter = counter_in buf; plain_len = plain_len })

  decrypt_with-selected :
      24 ≤ total_len
      → decrypt_with host key buf total_len plain_len (counter_in buf) (nonce_in protocol_id buf)
        ≡ selected
  unfolding decrypt_with finish_decrypt
  decrypt_with-selected h =
      let nonce = nonce_in protocol_id buf in
      let cipher = cipher_in buf total_len in
      let poly_key = block_of host key nonce 0 in
      let after : ℕ → List ℕ → List ℕ → Option (List ℕ) → Option Decrypted = (λ n recv t plain.
        if tag_diff 0 t recv == 0
        then finish_decrypt host buf (counter_in buf) n plain
        else some (record {
          status = err_auth;
          buf = buf;
          counter = counter_in buf;
          plain_len = plain_len;
        })) in
      let size : length cipher ≡ total_len - 24 =
        length-load buf 8 (total_len - 24) (omega arith) in
      let tag : mac host poly_key cipher (total_len - 24) ≡ tag_of host key nonce cipher =
        ap (mac host poly_key cipher) (sym size)
        ∙ mac-tag_of host key nonce cipher (IsBytes-load buf 8 (total_len - 24) b)
            (omega (arith, size)) in
      let ends : total_len - 8 - 16 ≡ total_len - 24 = omega arith in
      let place : 8 + (total_len - 24) ≡ total_len - 16 = omega arith in
      let crypt = (λ (bs : List ℕ). chacha20_crypt host key nonce 1 bs) in
      ap
        (λ (n : ℕ).
          after n (load buf (8 + n) 16) (mac host poly_key (load buf 8 n) n) (crypt (load buf 8 n)))
        ends
      ∙ ap
          (λ (o : ℕ).
            after (total_len - 24) (load buf o 16) (mac host poly_key cipher (total_len - 24))
              (crypt cipher))
          place
      ∙ ap₂ (after (total_len - 24) (tag_in buf total_len)) tag
          (chacha20_crypt-stream host key nonce 1 cipher (omega arith))

  decrypt-selected :
      24 ≤ total_len
      → nn_crypto_decrypt host key protocol_id buf total_len counter plain_len ≡ selected
  unfolding nn_crypto_decrypt
  decrypt-selected h =
      let got = read_u64-le_value host buf b 0 (omega arith) in
      let front = load buf 0 8 in
      let bound : counter_in buf < 2 ^ 64 = omega (
        arith,
        le_value-lt front (IsBytes-load buf 0 8 b),
        ap (λ (n : ℕ). 256 ^ n) (length-load buf 0 8 (omega arith)),
      ) in
      rw (le→ltb total_len 24 h) (
        ap
          (λ (c : ℕ).
            decrypt_with host key buf total_len plain_len c (build_nonce host c protocol_id))
          got
        ∙ ap (decrypt_with host key buf total_len plain_len (counter_in buf))
            (build_nonce-nonce_of host (counter_in buf) protocol_id bound p)
        ∙ decrypt_with-selected h)

-- Decryption of the first `total_len` bytes of a buffer of bytes, which has them, for a length below
-- 2^64 and a protocol below 2^32. Fewer than 24 are refused, and the buffer and both
-- results are left as they were. If the last 16 bytes are not the tag of RFC 8439 of the cipher text
-- under the nonce made of the counter in the first 8, the result is an authentication error, the
-- counter is stored, and the buffer and the stored length stay as they were. Otherwise the cipher
-- text is replaced by its combination with the key stream, and its length is stored.
pub nn_crypto_decrypt_lem :
    (host : Endian) (key : List ℕ) (protocol_id : ℕ) (buf : List ℕ)
    (total_len counter plain_len : ℕ)
    → protocol_id < 2 ^ 32
    → IsBytes buf
    → total_len ≤ length buf
    → total_len < 2 ^ 64
    → let nonce = nonce_in protocol_id buf in
      let cipher = cipher_in buf total_len in
      let tag = tag_of host key nonce cipher in
      let got = nn_crypto_decrypt host key protocol_id buf total_len counter plain_len in
      (total_len < 24
        → got
          ≡ some
              (record { status = err_short; buf = buf; counter = counter; plain_len = plain_len }))
      × (24 ≤ total_len
          → tag_in buf total_len ≢ tag
          → got
            ≡ some (record {
              status = err_auth;
              buf = buf;
              counter = counter_in buf;
              plain_len = plain_len;
            }))
      × (24 ≤ total_len
          → tag_in buf total_len ≡ tag
          → got
            ≡ some (record {
              status = ok;
              buf = store buf 8 (cipher_of host key nonce cipher);
              counter = counter_in buf;
              plain_len = total_len - 24;
            }))
nn_crypto_decrypt_lem host key protocol_id buf total_len counter plain_len p b room small =
    let nonce = nonce_in protocol_id buf in
    let cipher = cipher_in buf total_len in
    let tag = tag_of host key nonce cipher in
    let recv = tag_in buf total_len in
    let (tag_bytes, tag_len) = tag_of-IsBytes host key nonce cipher in
    let recv_bytes : IsBytes recv = IsBytes-load buf (total_len - 16) 16 b in
    let recv_len = length-load buf (total_len - 16) 16 in
    let chosen =
      decrypt-selected host key protocol_id buf total_len counter plain_len p b room small in
    (
      decrypt-short host key protocol_id buf total_len counter plain_len p b room small,
      (λ h differ.
          let unequal : (tag_diff 0 tag recv == 0) ≡ false =
            elim (Bool-cases (tag_diff 0 tag recv == 0)) [
              | inl e ↦
                  let (_, same) =
                    tag_diff-equal 0 tag recv tag_bytes recv_bytes
                      (tag_len ∙ sym (recv_len (omega arith)))
                      ((==_iff (tag_diff 0 tag recv) 0).0 e) in
                  absurd (differ (sym same))
              | inr e ↦ e
            ] in
          chosen h ∙ rw unequal refl),
      (λ h same.
          let equal : (tag_diff 0 tag recv == 0) ≡ true =
            (==_iff (tag_diff 0 tag recv) 0).1
              (ap (tag_diff 0 tag) same ∙ tag_diff_self tag tag_bytes) in
          chosen h ∙ rw equal refl),
    )
