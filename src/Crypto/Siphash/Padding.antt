-- ===== src/Crypto/Siphash/Padding.antt =====
-- SipHash against its definition on a padded message: the bytes, zeros, and the length modulo 256 as
-- the last byte of a whole number of words.
use nova_net.Prelude.{
  ℕ, zero, suc, ◌+◌, ◌-◌, ◌*◌, ◌/◌, ◌%◌, ◌^◌, ◌<◌, ◌≤◌, ◌≡◌, refl, sym, ap, ap₂, ◌∙◌, List, [], ◌∷◌,
  ◌++◌, length, length-append, length-replicate, length-drop, length-take, take, drop, get_or,
  replicate, take_all, take-append-drop, append_assoc, bit_and, bit_or, u64, ◌<<<◌, arith,
}
use native.Mathlib.Nat.{pow-suc, mul-le-mul_right, pow-le-pow_right, mod-eq_of_lt}
use nova_net.Prelude.Bits.{bit_or-add, bit_and-mask}
use nova_net.Wire.{Endian, IsBytes, load, le_value}
use nova_net.Wire.Blocks.{fold_blocks, fold_blocks-append, fold_blocks-take}
use nova_net.Wire.Order.{IsBytes-drop, read_u64-le_value}
use nova_net.Crypto.Siphash.{
  SipState, compress, init_state, finalize, tail_word, nn_load_u64le, absorb_words, nn_siphash_2_4,
}

-- The padded message and the digest of its words.
abbrev pub padded : List ℕ → List ℕ
padded msg = msg ++ (replicate (7 - length msg % 8) 0 ++ (length msg % 256 ∷ []))

abbrev pub absorb_block : SipState → List ℕ → SipState
absorb_block s block = compress s (le_value block)

abbrev pub siphash_words : List ℕ → List ℕ → ℕ
siphash_words key bytes = finalize (
    fold_blocks 8 absorb_block (length bytes / 8)
      (init_state (le_value (load key 0 8)) (le_value (load key 8 8))) bytes)

-- The value of a byte at place `k`.
abbrev scale : ℕ → ℕ
scale k = 2 ^ (8 * k)

scale-suc : (k : ℕ) → scale (suc k) ≡ scale k * 256
scale-suc k =
    let e : 8 * suc k ≡ suc (suc (suc (suc (suc (suc (suc (suc (8 * k)))))))) = omega arith in
    ap (λ (n : ℕ). 2 ^ n) e
    ∙ omega (
      arith,
      pow-suc 2 (suc (suc (suc (suc (suc (suc (suc (8 * k)))))))),
      pow-suc 2 (suc (suc (suc (suc (suc (suc (8 * k))))))),
      pow-suc 2 (suc (suc (suc (suc (suc (8 * k)))))),
      pow-suc 2 (suc (suc (suc (suc (8 * k))))),
      pow-suc 2 (suc (suc (suc (8 * k)))),
      pow-suc 2 (suc (suc (8 * k))),
      pow-suc 2 (suc (8 * k)),
      pow-suc 2 (8 * k),
    )

scale-split : (k : ℕ) → k ≤ 7 → scale (7 - k) * scale k ≡ 2 ^ 56
scale-split zero h = refl
scale-split (suc zero) h = refl
scale-split (suc (suc zero)) h = refl
scale-split (suc (suc (suc zero))) h = refl
scale-split (suc (suc (suc (suc zero)))) h = refl
scale-split (suc (suc (suc (suc (suc zero))))) h = refl
scale-split (suc (suc (suc (suc (suc (suc zero)))))) h = refl
scale-split (suc (suc (suc (suc (suc (suc (suc zero))))))) h = refl
scale-split (suc (suc (suc (suc (suc (suc (suc (suc k)))))))) h = absurd (omega arith)

scale-le : (k : ℕ) → k ≤ 6 → scale k ≤ 2 ^ 48
scale-le k h = pow-le-pow_right {n = 2} (omega arith) {i = 8 * k} {j = 48} (omega arith)

le_value-take-suc :
    (k : ℕ) (bs : List ℕ)
    → k < length bs
    → le_value (take (suc k) bs) ≡ le_value (take k bs) + get_or bs k 0 * scale k
le_value-take-suc k [] h = absurd (omega arith)
le_value-take-suc zero (x ∷ xs) h = omega arith
le_value-take-suc (suc k) (x ∷ xs) h =
    omega
      (arith, le_value-take-suc k xs (omega arith), ap (λ (v : ℕ). get_or xs k 0 * v) (scale-suc k))

get_or-lt : (bs : List ℕ) (i : ℕ) → IsBytes bs → get_or bs i 0 < 256
get_or-lt [] i h = omega arith
get_or-lt (x ∷ xs) zero h = h.0
get_or-lt (x ∷ xs) (suc i) h = get_or-lt xs i h.1

-- The switch adds the bytes below what stands above them.
tail_word-value :
    (k q : ℕ) (bs : List ℕ)
    → IsBytes bs
    → k ≤ length bs
    → k ≤ 7
    → tail_word k bs (q * scale k) ≡ q * scale k + le_value (take k bs)
unfolding tail_word
tail_word-value zero q bs b h p = omega arith
tail_word-value (suc k) q bs b h p =
    let byte = get_or bs k 0 in
    let small = get_or-lt bs k b in
    let most : byte * scale k ≤ 255 * scale k =
      mul-le-mul_right {m = byte} {n = 255} (scale k) (omega arith) in
    let one : 1 ≤ scale k =
      pow-le-pow_right {n = 2} (omega arith) {i = 0} {j = 8 * k} (omega arith) in
    let low : byte * scale k < 2 ^ (8 * suc k) = omega (arith, most, one, scale-suc k) in
    let fits : u64 (byte * scale k) ≡ byte * scale k =
      mod-eq_of_lt {n = byte * scale k} {m = 2 ^ 64}
        (omega (arith, most, scale-le k (omega arith))) in
    let joined : bit_or (q * scale (suc k)) (u64 (byte * scale k)) ≡ (q * 256 + byte) * scale k =
      ap (bit_or (q * scale (suc k))) fits
      ∙ bit_or-add (8 * suc k) q (byte * scale k) low
      ∙ omega (arith, ap (λ (v : ℕ). q * v) (scale-suc k)) in
    ap (tail_word k bs) joined
    ∙ tail_word-value k (q * 256 + byte) bs b (omega arith) (omega arith)
    ∙ omega (arith, le_value-take-suc k bs (omega arith), ap (λ (v : ℕ). q * v) (scale-suc k))

le_value-append :
    (xs ys : List ℕ) → le_value (xs ++ ys) ≡ le_value xs + le_value ys * scale (length xs)
le_value-append [] ys = omega arith
le_value-append (x ∷ xs) ys =
    omega (arith, le_value-append xs ys, ap (λ (v : ℕ). le_value ys * v) (scale-suc (length xs)))

le_value-zeros : (j n : ℕ) → le_value (replicate j 0 ++ (n ∷ [])) ≡ n * scale j
le_value-zeros zero n = omega arith
le_value-zeros (suc j) n = omega (arith, le_value-zeros j n, ap (λ (v : ℕ). n * v) (scale-suc j))

absorb_words-fold :
    (host : Endian) (n : ℕ) (s : SipState) (msg : List ℕ)
    → IsBytes msg
    → n * 8 ≤ length msg
    → absorb_words host n s msg ≡ fold_blocks 8 absorb_block n s msg
unfolding absorb_words nn_load_u64le
absorb_words-fold host zero s msg b h = refl
absorb_words-fold host (suc n) s msg b h =
    ap (λ (m : ℕ). absorb_words host n (compress s m) (drop 8 msg))
      (read_u64-le_value host msg b 0 (omega arith))
    ∙ absorb_words-fold host n (absorb_block s (take 8 msg)) (drop 8 msg) (IsBytes-drop 8 msg b)
        (omega (arith, length-drop 8 msg))

module _ (msg : List ℕ) (b : IsBytes msg) where
  abbrev full : ℕ
  full = length msg / 8 * 8

  -- The last word, with the bytes that the loop leaves.
  abbrev last : List ℕ
  last = drop full msg ++ (replicate (7 - length msg % 8) 0 ++ (length msg % 256 ∷ []))

  length-last : length last ≡ 8
  length-last =
      let zeros : List ℕ = replicate (7 - length msg % 8) 0 in
      omega (
        arith,
        length-append (drop full msg) (zeros ++ (length msg % 256 ∷ [])),
        length-append zeros (length msg % 256 ∷ []),
        length-replicate {A = ℕ} (7 - length msg % 8) 0,
        length-drop full msg,
      )

  last-value :
      tail_word (length msg % 8) (drop full msg) (length msg % 256 * 2 ^ 56) ≡ le_value last
  last-value =
      let k = length msg % 8 in
      let n = length msg % 256 in
      let rest = drop full msg in
      let size : length rest ≡ k = omega (arith, length-drop full msg) in
      let place : n * 2 ^ 56 ≡ n * scale (7 - k) * scale k =
        omega (arith, ap (λ (v : ℕ). n * v) (scale-split k (omega arith))) in
      ap (tail_word k rest) place
      ∙ tail_word-value k (n * scale (7 - k)) rest (IsBytes-drop full msg b) (omega (arith, size))
          (omega arith)
      ∙ omega (
        arith,
        ap le_value (take_all k rest (omega (arith, size))),
        le_value-append rest (replicate (7 - k) 0 ++ (n ∷ [])),
        ap (λ (v : ℕ). v * scale (length rest)) (le_value-zeros (7 - k) n),
        ap (λ (j : ℕ). n * scale (7 - k) * scale j) size,
      )

  fold-padded :
      (s : SipState)
      → fold_blocks 8 absorb_block (length (padded msg) / 8) s (padded msg)
        ≡ compress (fold_blocks 8 absorb_block (length msg / 8) s msg) (le_value last)
  fold-padded s =
      let n = length msg / 8 in
      let tail = replicate (7 - length msg % 8) 0 ++ (length msg % 256 ∷ []) in
      let split : padded msg ≡ take full msg ++ last =
        ap (λ bs. bs ++ tail) (sym (take-append-drop full msg))
        ∙ append_assoc (take full msg) (drop full msg) tail in
      let front : length (take full msg) ≡ n * 8 = omega (arith, length-take full msg) in
      let total : length (padded msg) / 8 ≡ n + 1 =
        omega (arith, ap length split, length-append (take full msg) last, front, length-last) in
      ap₂ (λ (k : ℕ) bs. fold_blocks 8 absorb_block k s bs) total split
      ∙ fold_blocks-append 8 absorb_block n 1 s (take full msg) last front
      ∙ ap₂ (λ t bs. compress t (le_value bs))
          (sym (fold_blocks-take 8 absorb_block n s msg (omega arith)))
          (take_all 8 last (omega (arith, length-last)))

-- The digest of a message of bytes under a key of at least 16 is that of the words of the padded
-- message, on a host of either byte order.
pub siphash-padded :
    (host : Endian) (key msg : List ℕ)
    → IsBytes key
    → 16 ≤ length key
    → IsBytes msg
    → nn_siphash_2_4 host key msg (length msg) ≡ siphash_words key (padded msg)
unfolding nn_siphash_2_4 nn_load_u64le
siphash-padded host key msg b h c =
    let n = length msg / 8 in
    let blocks : (length msg - length msg % 8) / 8 ≡ n = omega arith in
    let left : bit_and (length msg) 7 ≡ length msg % 8 = bit_and-mask 3 (length msg) in
    let tag : u64 (bit_and (length msg) 0xFF <<< 56) ≡ length msg % 256 * 2 ^ 56 =
      omega (arith, bit_and-mask 8 (length msg)) in
    let k0 = read_u64-le_value host key b 0 (omega arith) in
    let k1 = read_u64-le_value host key b 8 (omega arith) in
    let start = init_state (le_value (load key 0 8)) (le_value (load key 8 8)) in
    let word = (λ (q l t : ℕ). tail_word l (drop (q * 8) msg) t) in
    let loop = (λ (q : ℕ) (s : SipState). absorb_words host q s msg) in
    ap finalize (
      ap₂ compress
        (ap₂ loop blocks (ap₂ init_state k0 k1)
          ∙ absorb_words-fold host n start msg c (omega arith))
        (ap (λ (q : ℕ). word q (bit_and (length msg) 7) (u64 (bit_and (length msg) 0xFF <<< 56)))
            blocks
          ∙ ap₂ (word n) left tag
          ∙ last-value msg c)
      ∙ sym (fold-padded msg c start))
