-- ===== src/Crypto/Poly1305/Tag.antt =====
-- The calls that make a tag, in arithmetic: key set-up, whole blocks, and the words written out.
use nova_net.Prelude.{
  ℕ, ◌+◌, ◌*◌, ◌/◌, ◌%◌, ◌^◌, ◌≤◌, ◌≡◌, refl, sym, ap, ap₂, ◌∙◌, List, [], ◌∷◌, ◌++◌, length,
  bit_and, false, arith,
}
use nova_net.Wire.{Endian, IsBytes, load, store, le_value, le_bytes}
use nova_net.Wire.Bytes.{write_u32-le_bytes, le_bytes-word}
use nova_net.Crypto.Poly1305.{
  Words, Poly1305State, read_words, poly1305_init, poly1305_blocks, poly1305_finish, write_words,
  finish_words,
}
use nova_net.Crypto.Poly1305.Block.{IsCarried, IsSmall, IsWords, limbs_value, words_value, prime}
use nova_net.Crypto.Poly1305.Absorb.{
  poly_blocks, read_words-value, absorb_all-key, absorb_all-value,
}
use nova_net.Crypto.Poly1305.Clamp.{clamp_mask, clamp-IsSmall, clamp-value}
use nova_net.Crypto.Poly1305.Finish.{finish_words-value}

-- A state that stands for the key `r`, the pad `s` and the accumulator `acc`.
pub record IsAt (st : Poly1305State) (r s acc : ℕ) : Type 0 where
  pub carried : IsCarried st.h
  pub small : IsSmall st.r
  pub words : IsWords st.pad
  pub key : limbs_value st.r ≡ r
  pub pad : words_value st.pad ≡ s
  pub value : limbs_value st.h % prime ≡ acc

-- The two halves of a one-time key.
abbrev pub clamped : List ℕ → ℕ
clamped key = bit_and (le_value (load key 0 16)) clamp_mask

abbrev pub pad_of : List ℕ → ℕ
pad_of key = le_value (load key 16 16)

words-le_bytes :
    (w : Words)
    → IsWords w
    → le_bytes 16 (words_value w)
      ≡ le_bytes 4 w.w0 ++ (le_bytes 4 w.w1 ++ (le_bytes 4 w.w2 ++ le_bytes 4 w.w3))
words-le_bytes w v =
    let v3 = w.w3 in
    let v2 = w.w2 + v3 * 2 ^ 32 in
    let v1 = w.w1 + v2 * 2 ^ 32 in
    le_bytes-word 12 w.w0 v1 (words_value w) v.b0 (omega arith)
    ∙ ap (λ bs. le_bytes 4 w.w0 ++ bs)
        (le_bytes-word 8 w.w1 v2 v1 v.b1 refl
          ∙ ap (λ bs. le_bytes 4 w.w1 ++ bs) (le_bytes-word 4 w.w2 v3 v2 v.b2 refl))

-- Four stores fill sixteen bytes.
stores :
    (tag : List ℕ) (a b c d : ℕ)
    → length tag ≡ 16
    → store
        (store (store (store tag 0 (le_bytes 4 a)) 4 (le_bytes 4 b)) 8 (le_bytes 4 c))
        12
        (le_bytes 4 d)
      ≡ le_bytes 4 a ++ (le_bytes 4 b ++ (le_bytes 4 c ++ le_bytes 4 d))
stores (t0 ∷ t1 ∷ t2 ∷ t3 ∷ t4 ∷ t5 ∷ t6 ∷ t7 ∷ t8 ∷ t9 ∷ u0 ∷ u1 ∷ u2 ∷ u3 ∷ u4 ∷ u5 ∷ []) a b c d
      h =
    refl
stores _ a b c d h = absurd (omega arith)

write_words-le_bytes :
    (host : Endian) (tag : List ℕ) (w : Words)
    → length tag ≡ 16
    → IsWords w
    → write_words host tag w ≡ le_bytes 16 (words_value w)
unfolding write_words
write_words-le_bytes host tag w h v = rw (write_u32-le_bytes host tag 0 w.w0 v.b0) (
    rw (write_u32-le_bytes host (store tag 0 (le_bytes 4 w.w0)) 4 w.w1 v.b1) (
      rw
        (write_u32-le_bytes host (store (store tag 0 (le_bytes 4 w.w0)) 4 (le_bytes 4 w.w1)) 8 w.w2
          v.b2)
        (write_u32-le_bytes host
            (store (store (store tag 0 (le_bytes 4 w.w0)) 4 (le_bytes 4 w.w1)) 8 (le_bytes 4 w.w2))
            12 w.w3 v.b3
          ∙ stores tag w.w0 w.w1 w.w2 w.w3 h
          ∙ sym (words-le_bytes w v))))

module _ (host : Endian) where
  pub init-IsAt :
      (key : List ℕ)
      → IsBytes key
      → 32 ≤ length key
      → IsAt (poly1305_init host key) (clamped key) (pad_of key) 0
  unfolding poly1305_init
  init-IsAt key b h =
      let (w, e) = read_words-value host key b 0 (omega arith) in
      let (w', e') = read_words-value host key b 16 (omega arith) in
      let t = read_words host key 0 in
      record {
        carried = omega arith;
        small = clamp-IsSmall t w;
        words = w';
        key = clamp-value t w ∙ ap (λ (v : ℕ). bit_and v clamp_mask) e;
        pad = e';
        value = refl;
      }

  pub blocks-IsAt :
      (st : Poly1305State) (r s acc : ℕ) (bytes : List ℕ) (len : ℕ)
      → IsAt st r s acc
      → IsBytes bytes
      → len ≤ length bytes
      → IsAt (poly1305_blocks host st bytes len false) r s (poly_blocks 1 r (len / 16) acc bytes)
  unfolding poly1305_blocks
  blocks-IsAt st r s acc bytes len i b h =
      let (key_kept, pad_kept) = absorb_all-key host 1 (omega arith) (len / 16) st bytes in
      let (c, e) =
        absorb_all-value host 1 (omega arith) (len / 16) st bytes i.carried i.small b
          (omega arith) in
      record {
        carried = c;
        small = rw key_kept i.small;
        words = rw pad_kept i.words;
        key = ap limbs_value key_kept ∙ i.key;
        pad = ap words_value pad_kept ∙ i.pad;
        value = e ∙ ap₂ (λ (k a : ℕ). poly_blocks 1 k (len / 16) a bytes) i.key i.value;
      }

  pub finish-IsAt :
      (st : Poly1305State) (r s acc : ℕ) (tag : List ℕ)
      → IsAt st r s acc
      → length tag ≡ 16
      → poly1305_finish host st [] 0 tag ≡ le_bytes 16 ((acc + s) % 2 ^ 128)
  unfolding poly1305_finish
  finish-IsAt st r s acc tag i h =
      let (w, e) = finish_words-value st i.carried i.words in
      write_words-le_bytes host tag (finish_words st) h w
      ∙ ap (le_bytes 16) (e ∙ rw (i.value, i.pad) refl)
