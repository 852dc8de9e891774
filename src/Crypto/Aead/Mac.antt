-- ===== src/Crypto/Aead/Mac.antt =====
-- The tag against RFC 8439, 2.8: the polynomial over the padded cipher text and the lengths.
use nova_net.Prelude.{
  take_all, subst, lt→ltb, le→ltb, u64, ℕ, zero, suc, ◌+◌, ◌-◌, ◌*◌, ◌/◌, ◌%◌, ◌^◌, ◌<◌, ◌≤◌, ◌≡◌,
  refl, sym, ap, ap₂, ◌∙◌, List, ◌++◌, append_assoc, length, length-append, length-take,
  length-drop, length-replicate, take, drop, take-append-drop, replicate, bit_and, false, ltb,
  if◌then◌else◌, arith,
}
use native.Mathlib.Decide.{dec_lt}
use nova_net.Prelude.Bits.{bit_and-field}
use nova_net.Wire.{nn_write_u64le, Endian, IsBytes, load, store, le_value, le_bytes}
use nova_net.Wire.Buffer.{length-store, store_lem}
use nova_net.Wire.Bytes.{
  IsBytes-append, IsBytes-store, IsBytes-le_bytes, IsBytes-replicate, write_u64-le_bytes,
}
use nova_net.Wire.Blocks.{fold_blocks-append, fold_blocks-take}
use nova_net.Wire.Order.{IsBytes-load, length-load}
use nova_net.Crypto.Poly1305.{Poly1305State, poly1305_init, poly1305_blocks}
use nova_net.Crypto.Poly1305.Absorb.{poly_step, poly_blocks}
use nova_net.Crypto.Poly1305.Tag.{IsAt, clamped, pad_of, init-IsAt, blocks-IsAt, finish-IsAt}
use nova_net.Crypto.Aead.{poly1305_block_mask, zeros_16, mac_state, mac}

-- What is authenticated: the cipher text, zeros up to a block, and the two lengths.
abbrev pub mac_data : List ℕ → List ℕ
mac_data cipher =
    (cipher ++ replicate ((16 - length cipher % 16) % 16) 0)
    ++ (le_bytes 8 0 ++ le_bytes 8 (length cipher))

-- The authenticator of whole blocks under a one-time key.
abbrev pub poly1305 : List ℕ → List ℕ → ℕ
poly1305 key message =
    (poly_blocks 1 (clamped key) (length message / 16) 0 message + pad_of key) % 2 ^ 128

-- A round of the authenticator.
abbrev poly_block : ℕ → ℕ → List ℕ → ℕ
poly_block r acc block = poly_step acc r (le_value block + 1 * 2 ^ 128)

drop-replicate : (k n : ℕ) → drop {A = ℕ} k (replicate n 0) ≡ replicate (n - k) 0
drop-replicate zero n = ap (λ (j : ℕ). replicate j 0) {x = n} {y = n - 0} (omega arith)
drop-replicate (suc k) zero = ap (λ (j : ℕ). replicate j 0) {x = 0} {y = 0 - suc k} (omega arith)
drop-replicate (suc k) (suc n) =
    drop-replicate k n ∙ ap (λ (j : ℕ). replicate j 0) {x = n - k} {y = suc n - suc k} (omega arith)

-- The bytes of a block that a shorter list leaves are zeros.
store-zeros :
    (bs : List ℕ) → length bs ≤ 16 → store zeros_16 0 bs ≡ bs ++ replicate (16 - length bs) 0
store-zeros bs h =
    store_lem zeros_16 0 bs (omega (arith, length-replicate {A = ℕ} 16 0))
    ∙ ap (λ (k : ℕ). bs ++ drop k zeros_16) {x = 0 + length bs} {y = length bs} (omega arith)
    ∙ ap (λ r. bs ++ r) (drop-replicate (length bs) 16)

-- The blocks that the calls absorb after the whole ones.
abbrev rest : List ℕ → List ℕ
rest cipher = drop (length cipher / 16 * 16) cipher ++ replicate ((16 - length cipher % 16) % 16) 0

abbrev lengths : List ℕ → List ℕ
lengths cipher = le_bytes 8 0 ++ le_bytes 8 (length cipher)

mac_data-split :
    (cipher : List ℕ)
    → mac_data cipher ≡ take (length cipher / 16 * 16) cipher ++ (rest cipher ++ lengths cipher)
mac_data-split cipher =
    let full = length cipher / 16 * 16 in
    let z : List ℕ = replicate ((16 - length cipher % 16) % 16) 0 in
    ap (λ bs. (bs ++ z) ++ lengths cipher) (sym (take-append-drop full cipher))
    ∙ ap (λ bs. bs ++ lengths cipher) (append_assoc (take full cipher) (drop full cipher) z)
    ∙ append_assoc (take full cipher) (rest cipher) (lengths cipher)

length-rest :
    (cipher : List ℕ)
    → length (rest cipher) ≡ (length cipher + 15) / 16 * 16 - length cipher / 16 * 16
length-rest cipher =
    let full = length cipher / 16 * 16 in
    let k = (16 - length cipher % 16) % 16 in
    omega (
      arith,
      length-append (drop full cipher) (replicate k 0),
      length-drop full cipher,
      length-replicate {A = ℕ} k 0,
    )

moved : {r s acc acc' : ℕ} {st : Poly1305State} → acc ≡ acc' → IsAt st r s acc → IsAt st r s acc'
moved {r} {s} {st = st} e i = subst (λ k. IsAt st r s k) e i

module _ (host : Endian) (r s : ℕ) (cipher : List ℕ) (c : IsBytes cipher) (st : Poly1305State)
    (acc : ℕ) (i : IsAt st r s acc) where
  whole-IsAt :
      let full = length cipher / 16 * 16 in
      IsAt
        (if ltb 0 full then poly1305_blocks host st cipher full false else st)
        r
        s
        (poly_blocks 1 r (length cipher / 16) acc (take full cipher))
  whole-IsAt =
      let full = length cipher / 16 * 16 in
      let q = length cipher / 16 in
      let front = take full cipher in
      elim (dec_lt 0 full) [
        | yes p ↦
            let e : full / 16 ≡ q = omega arith in
            rw (lt→ltb 0 full p) (
              moved
                (ap (λ (k : ℕ). poly_blocks 1 r k acc cipher) e
                  ∙ fold_blocks-take 16 (poly_block r) q acc cipher (omega arith))
                (blocks-IsAt host st r s acc cipher full i c (omega arith)))
        | no p ↦
            let e : 0 ≡ q = omega arith in
            rw (le→ltb 0 full (omega arith))
              (moved (ap (λ (k : ℕ). poly_blocks 1 r k acc front) e) i)
      ]

  rest-IsAt :
      let full = length cipher / 16 * 16 in
      let rem = length cipher - full in
      IsAt
        (if ltb 0 rem
          then poly1305_blocks host st (store zeros_16 0 (load cipher full rem)) 16 false
          else st)
        r
        s
        (poly_blocks 1 r (length (rest cipher) / 16) acc (rest cipher))
  rest-IsAt =
      let full = length cipher / 16 * 16 in
      let rem = length cipher - full in
      let last = load cipher full rem in
      let q = length (rest cipher) / 16 in
      let size = length-load cipher full rem (omega arith) in
      elim (dec_lt 0 rem) [
        | yes p ↦
            let e : 1 ≡ q = omega (arith, length-rest cipher) in
            let block = store zeros_16 0 last in
            let same : block ≡ rest cipher =
              store-zeros last (omega arith)
              ∙ ap (λ bs. bs ++ replicate (16 - length last) 0)
                  (take_all rem (drop full cipher) (omega (arith, length-drop full cipher)))
              ∙ ap (λ (k : ℕ). drop full cipher ++ replicate k 0) {x = 16 - length last}
                  {y = (16 - length cipher % 16) % 16} (omega arith) in
            rw (lt→ltb 0 rem p) (
              moved (ap₂ (λ (k : ℕ) bs. poly_blocks 1 r k acc bs) e same) (
                blocks-IsAt host st r s acc block 16 i
                  (IsBytes-store zeros_16 0 last (IsBytes-replicate 16)
                    (IsBytes-load cipher full rem c))
                  (omega (arith, length-store zeros_16 0 last))))
        | no p ↦
            let e : 0 ≡ q = omega (arith, length-rest cipher) in
            rw (le→ltb 0 rem (omega arith))
              (moved (ap (λ (k : ℕ). poly_blocks 1 r k acc (rest cipher)) e) i)
      ]

  lengths-IsAt :
      length cipher < 2 ^ 64
      → IsAt
          (poly1305_blocks host st
            (nn_write_u64le host (nn_write_u64le host zeros_16 0 0) 8 (u64 (length cipher)))
            16
            false)
          r
          s
          (poly_blocks 1 r 1 acc (lengths cipher))
  lengths-IsAt h =
      let n = length cipher in
      let same : u64 n ≡ n = omega arith in
      let e =
        ap (λ (v : ℕ). nn_write_u64le host (nn_write_u64le host zeros_16 0 0) 8 v) same
        ∙ ap (λ bs. nn_write_u64le host bs 8 n) (write_u64-le_bytes host zeros_16 0 0 (omega arith))
        ∙ write_u64-le_bytes host (store zeros_16 0 (le_bytes 8 0)) 8 n h in
      let block = lengths cipher in
      rw e (
        blocks-IsAt host st r s acc block 16 i
          (IsBytes-append (le_bytes 8 0) (le_bytes 8 n) (IsBytes-le_bytes 8 0)
            (IsBytes-le_bytes 8 n))
          (omega arith))

pub mac_state-IsAt :
    (host : Endian) (key cipher : List ℕ)
    → IsBytes key
    → 32 ≤ length key
    → IsBytes cipher
    → length cipher < 2 ^ 64
    → IsAt
        (mac_state host key cipher (length cipher))
        (clamped key)
        (pad_of key)
        (poly_blocks 1 (clamped key) (length (mac_data cipher) / 16) 0 (mac_data cipher))
unfolding mac_state
mac_state-IsAt host key cipher b l c h =
    let full = length cipher / 16 * 16 in
    let r = clamped key in
    let s = pad_of key in
    let mask : bit_and (length cipher) poly1305_block_mask ≡ full =
      bit_and-field 60 4 (length cipher) ∙ omega arith in
    let i0 = init-IsAt host key b l in
    let i1 = whole-IsAt host r s cipher c (poly1305_init host key) 0 i0 in
    let i2 = rest-IsAt host r s cipher c _ _ i1 in
    let total : length (mac_data cipher) / 16
        ≡ length cipher / 16 + (length (rest cipher) / 16 + 1) =
      omega (
        arith,
        length-rest cipher,
        ap length (mac_data-split cipher),
        length-append (take full cipher) (rest cipher ++ lengths cipher),
        length-append (rest cipher) (lengths cipher),
        length-take full cipher,
      ) in
    rw mask (
      moved
        (sym (
          ap₂ (λ (k : ℕ) bs. poly_blocks 1 r k 0 bs) total (mac_data-split cipher)
          ∙ fold_blocks-append 16 (poly_block r) (length cipher / 16)
              (length (rest cipher) / 16 + 1) 0 (take full cipher) (rest cipher ++ lengths cipher)
              (omega (arith, length-take full cipher))
          ∙ fold_blocks-append 16 (poly_block r) (length (rest cipher) / 16) 1 _ (rest cipher)
              (lengths cipher) (omega (arith, length-rest cipher))))
        (lengths-IsAt host r s cipher c _ _ i2 h))

-- The tag is the sixteen bytes of the authenticator of RFC 8439 over the cipher text, zeros up to a
-- block and the two lengths, for a key of at least 32 bytes and a cipher text shorter than 2^64.
pub mac-poly1305 :
    (host : Endian) (key cipher : List ℕ)
    → IsBytes key
    → 32 ≤ length key
    → IsBytes cipher
    → length cipher < 2 ^ 64
    → mac host key cipher (length cipher) ≡ le_bytes 16 (poly1305 key (mac_data cipher))
unfolding mac
mac-poly1305 host key cipher b l c h =
    finish-IsAt host _ _ _ _ zeros_16 (mac_state-IsAt host key cipher b l c h) refl
