-- ===== src/Wire/Order.antt =====
-- The wire does not depend on the host's byte order.
use nova_net.Prelude.{
  ap₂, ℕ, zero, suc, ◌+◌, ◌*◌, ◌/◌, ◌%◌, ◌^◌, ◌≤◌, ◌<◌, ◌≡◌, refl, ap, ◌∙◌, List, [], ◌∷◌, length,
  arith, bit_and, take, drop, length-take, length-drop,
}
use nova_net.Prelude.Bits.{bit_or-add_right, bit_and-field, bit_and-mask}
use nova_net.Wire.{
  Endian, little, big, nn_bswap16, nn_bswap32, nn_bswap64, memory_bytes, memory_value, le_bytes,
  be_bytes, be_value, le_value, IsBytes, store, load, to_wire, nn_write_u16le, nn_write_u32le,
  nn_write_u64le, nn_read_u16le, nn_read_u32le, nn_read_u64le,
}

bswap16_sum : (v : ℕ) → v < 2 ^ 16 → nn_bswap16 v ≡ v / 2 ^ 8 + v % 256 * 2 ^ 8
unfolding nn_bswap16
bswap16_sum v h = omega (arith, bit_or-add_right 8 (v / 2 ^ 8) v (omega arith))

bswap32_sum :
    (v : ℕ)
    → v < 2 ^ 32
    → nn_bswap32 v
      ≡ v / 2 ^ 24 + v / 2 ^ 16 % 256 * 2 ^ 8 + v / 2 ^ 8 % 256 * 2 ^ 16 + v % 256 * 2 ^ 24
unfolding nn_bswap32
bswap32_sum v h = ground (
  arith,
  bit_and-field 8 0 (v / 2 ^ 24),
  bit_and-field 8 8 (v / 2 ^ 8),
  bit_and-field 8 16 (v * 2 ^ 8 % 2 ^ 32),
  bit_and-field 8 24 (v * 2 ^ 24 % 2 ^ 32),
  bit_or-add_right 8 (v / 2 ^ 24) (v / 2 ^ 16 % 256),
  bit_or-add_right 16 (v / 2 ^ 24 + v / 2 ^ 16 % 256 * 2 ^ 8) (v / 2 ^ 8 % 256),
  bit_or-add_right 24 (v / 2 ^ 24 + v / 2 ^ 16 % 256 * 2 ^ 8 + v / 2 ^ 8 % 256 * 2 ^ 16) (v % 256),
)

-- One byte of a swap: what the mask leaves of `a`.
field : (k a q : ℕ) → a / 2 ^ k % 256 ≡ q → bit_and a (255 * 2 ^ k) ≡ q * 2 ^ k
field k a q h = bit_and-field 8 k a ∙ ap (λ (t : ℕ). t * 2 ^ k) h

low_field : (a : ℕ) → a < 256 → bit_and a 255 ≡ a
low_field a h = omega (arith, bit_and-mask 8 a)

bswap64_sum :
    (v : ℕ)
    → v < 2 ^ 64
    → nn_bswap64 v
      ≡ v / 2 ^ 56
        + v / 2 ^ 48 % 256 * 2 ^ 8
        + v / 2 ^ 40 % 256 * 2 ^ 16
        + v / 2 ^ 32 % 256 * 2 ^ 24
        + v / 2 ^ 24 % 256 * 2 ^ 32
        + v / 2 ^ 16 % 256 * 2 ^ 40
        + v / 2 ^ 8 % 256 * 2 ^ 48
        + v % 256 * 2 ^ 56
unfolding nn_bswap64
bswap64_sum v h =
    let s1 : ℕ = v / 2 ^ 56 + v / 2 ^ 48 % 256 * 2 ^ 8 in
    let s2 : ℕ = s1 + v / 2 ^ 40 % 256 * 2 ^ 16 in
    let s3 : ℕ = s2 + v / 2 ^ 32 % 256 * 2 ^ 24 in
    let s4 : ℕ = s3 + v / 2 ^ 24 % 256 * 2 ^ 32 in
    let s5 : ℕ = s4 + v / 2 ^ 16 % 256 * 2 ^ 40 in
    let s6 : ℕ = s5 + v / 2 ^ 8 % 256 * 2 ^ 48 in
    rw
      (
        low_field (v / 2 ^ 56) (omega arith),
        field 8 (v / 2 ^ 40) (v / 2 ^ 48 % 256) (omega arith),
        field 16 (v / 2 ^ 24) (v / 2 ^ 40 % 256) (omega arith),
        field 24 (v / 2 ^ 8) (v / 2 ^ 32 % 256) (omega arith),
        field 32 (v * 2 ^ 8 % 2 ^ 64) (v / 2 ^ 24 % 256) (omega arith),
        field 40 (v * 2 ^ 24 % 2 ^ 64) (v / 2 ^ 16 % 256) (omega arith),
        field 48 (v * 2 ^ 40 % 2 ^ 64) (v / 2 ^ 8 % 256) (omega arith),
        field 56 (v * 2 ^ 56 % 2 ^ 64) (v % 256) (omega arith),
        bit_or-add_right 8 (v / 2 ^ 56) (v / 2 ^ 48 % 256) (omega arith),
        bit_or-add_right 16 s1 (v / 2 ^ 40 % 256) (omega arith),
        bit_or-add_right 24 s2 (v / 2 ^ 32 % 256) (omega arith),
        bit_or-add_right 32 s3 (v / 2 ^ 24 % 256) (omega arith),
        bit_or-add_right 40 s4 (v / 2 ^ 16 % 256) (omega arith),
        bit_or-add_right 48 s5 (v / 2 ^ 8 % 256) (omega arith),
        bit_or-add_right 56 s6 (v % 256) (omega arith),
      )
      refl

be_bytes-bswap16 : (v : ℕ) → v < 2 ^ 16 → be_bytes 2 (nn_bswap16 v) ≡ le_bytes 2 v
be_bytes-bswap16 v h = rw (bswap16_sum v h) (ground arith)

be_bytes-bswap32 : (v : ℕ) → v < 2 ^ 32 → be_bytes 4 (nn_bswap32 v) ≡ le_bytes 4 v
be_bytes-bswap32 v h = rw (bswap32_sum v h) (ground arith)

be_bytes-bswap64 : (v : ℕ) → v < 2 ^ 64 → be_bytes 8 (nn_bswap64 v) ≡ le_bytes 8 v
be_bytes-bswap64 v h = rw (bswap64_sum v h) (ground arith)

-- Each store of a value that fits its width writes the value's bytes, the lowest first, whatever
-- the byte order of the host.
pub write-le_bytes :
    (host : Endian) (buf : List ℕ) (off v w x : ℕ)
    → v < 2 ^ 16
    → w < 2 ^ 32
    → x < 2 ^ 64
    → (nn_write_u16le host buf off v ≡ store buf off (le_bytes 2 v))
      × (nn_write_u32le host buf off w ≡ store buf off (le_bytes 4 w))
      × (nn_write_u64le host buf off x ≡ store buf off (le_bytes 8 x))
unfolding nn_write_u16le nn_write_u32le nn_write_u64le to_wire memory_bytes
write-le_bytes little buf off v w x p q r = (refl, refl, refl)
write-le_bytes big buf off v w x p q r = (
  ap (store buf off) (be_bytes-bswap16 v p),
  ap (store buf off) (be_bytes-bswap32 w q),
  ap (store buf off) (be_bytes-bswap64 x r),
)

bswap16-be_value :
    (bs : List ℕ) → length bs ≡ 2 → IsBytes bs → nn_bswap16 (be_value bs) ≡ le_value bs
bswap16-be_value (a ∷ b ∷ []) e h = bswap16_sum (a * 256 + (b * 1 + 0)) (omega arith) ∙ omega arith
bswap16-be_value _ e h = absurd (omega arith)

bswap32-be_value :
    (bs : List ℕ) → length bs ≡ 4 → IsBytes bs → nn_bswap32 (be_value bs) ≡ le_value bs
bswap32-be_value (a ∷ b ∷ c ∷ d ∷ []) e h =
    bswap32_sum (be_value (a ∷ b ∷ c ∷ d ∷ [])) (omega arith) ∙ omega arith
bswap32-be_value _ e h = absurd (omega arith)

bswap64-be_value :
    (bs : List ℕ) → length bs ≡ 8 → IsBytes bs → nn_bswap64 (be_value bs) ≡ le_value bs
bswap64-be_value (a ∷ b ∷ c ∷ d ∷ i ∷ j ∷ k ∷ l ∷ []) e h =
    bswap64_sum (be_value (a ∷ b ∷ c ∷ d ∷ i ∷ j ∷ k ∷ l ∷ [])) (omega arith) ∙ omega arith
bswap64-be_value _ e h = absurd (omega arith)

pub IsBytes-take : (n : ℕ) (bs : List ℕ) → IsBytes bs → IsBytes (take n bs)
IsBytes-take zero bs h = tt
IsBytes-take (suc n) [] h = tt
IsBytes-take (suc n) (b ∷ bs) h = (h.0, IsBytes-take n bs h.1)

pub IsBytes-drop : (n : ℕ) (bs : List ℕ) → IsBytes bs → IsBytes (drop n bs)
IsBytes-drop zero bs h = h
IsBytes-drop (suc n) [] h = tt
IsBytes-drop (suc n) (b ∷ bs) h = IsBytes-drop n bs h.1

pub length-load : (buf : List ℕ) (off n : ℕ) → off + n ≤ length buf → length (load buf off n) ≡ n
length-load buf off n h = omega (arith, length-take n (drop off buf), length-drop off buf)

pub IsBytes-load : (buf : List ℕ) (off n : ℕ) → IsBytes buf → IsBytes (load buf off n)
IsBytes-load buf off n h = IsBytes-take n (drop off buf) (IsBytes-drop off buf h)

module _ (host : Endian) (buf : List ℕ) (b : IsBytes buf) where
  pub read_u16-le_value :
      (off : ℕ) → off + 2 ≤ length buf → nn_read_u16le host buf off ≡ le_value (load buf off 2)
  unfolding nn_read_u16le to_wire memory_value
  read_u16-le_value off h =
      elim host as (λ e. nn_read_u16le e buf off ≡ le_value (load buf off 2)) [
        | little ↦ refl
        | big ↦
            bswap16-be_value (load buf off 2) (length-load buf off 2 h) (IsBytes-load buf off 2 b)
      ]

  pub read_u32-le_value :
      (off : ℕ) → off + 4 ≤ length buf → nn_read_u32le host buf off ≡ le_value (load buf off 4)
  unfolding nn_read_u32le to_wire memory_value
  read_u32-le_value off h =
      elim host as (λ e. nn_read_u32le e buf off ≡ le_value (load buf off 4)) [
        | little ↦ refl
        | big ↦
            bswap32-be_value (load buf off 4) (length-load buf off 4 h) (IsBytes-load buf off 4 b)
      ]

  pub read_u64-le_value :
      (off : ℕ) → off + 8 ≤ length buf → nn_read_u64le host buf off ≡ le_value (load buf off 8)
  unfolding nn_read_u64le to_wire memory_value
  read_u64-le_value off h =
      elim host as (λ e. nn_read_u64le e buf off ≡ le_value (load buf off 8)) [
        | little ↦ refl
        | big ↦
            bswap64-be_value (load buf off 8) (length-load buf off 8 h) (IsBytes-load buf off 8 b)
      ]

-- Each load within a buffer of bytes is the little-endian value of its bytes, on every host.
pub read-le_value :
    (host : Endian) (buf : List ℕ) (i j k : ℕ)
    → IsBytes buf
    → i + 2 ≤ length buf
    → j + 4 ≤ length buf
    → k + 8 ≤ length buf
    → (nn_read_u16le host buf i ≡ le_value (load buf i 2))
      × (nn_read_u32le host buf j ≡ le_value (load buf j 4))
      × (nn_read_u64le host buf k ≡ le_value (load buf k 8))
read-le_value host buf i j k b p q r = (
  read_u16-le_value host buf b i p,
  read_u32-le_value host buf b j q,
  read_u64-le_value host buf b k r,
)

-- Two bytes that spell a number are read as that number, on every host.
pub read_u16-of_le_bytes :
    (host : Endian) (buf : List ℕ) (off v : ℕ)
    → v < 2 ^ 16
    → load buf off 2 ≡ le_bytes 2 v
    → nn_read_u16le host buf off ≡ v
unfolding nn_read_u16le to_wire memory_value
read_u16-of_le_bytes little buf off v h e = ap le_value e ∙ omega arith
read_u16-of_le_bytes big buf off v h e =
    ap (λ bs. nn_bswap16 (be_value bs)) e
    ∙ bswap16-be_value (le_bytes 2 v) refl (omega arith)
    ∙ omega arith

pub read_u32-of_le_bytes :
    (host : Endian) (buf : List ℕ) (off v : ℕ)
    → v < 2 ^ 32
    → load buf off 4 ≡ le_bytes 4 v
    → nn_read_u32le host buf off ≡ v
unfolding nn_read_u32le to_wire memory_value
read_u32-of_le_bytes little buf off v h e = ap le_value e ∙ omega arith
read_u32-of_le_bytes big buf off v h e =
    ap (λ bs. nn_bswap32 (be_value bs)) e
    ∙ bswap32-be_value (le_bytes 4 v) refl (omega arith)
    ∙ omega arith

le_value-lt : (bs : List ℕ) → length bs ≡ 2 → IsBytes bs → le_value bs < 2 ^ 16
le_value-lt (a ∷ b ∷ []) e h = omega arith
le_value-lt _ e h = absurd (omega arith)

pub read_u16-lt :
    (host : Endian) (buf : List ℕ) (off : ℕ)
    → IsBytes buf
    → off + 2 ≤ length buf
    → nn_read_u16le host buf off < 2 ^ 16
read_u16-lt host buf off b h =
    rw (read_u16-le_value host buf b off h)
      (le_value-lt (load buf off 2) (length-load buf off 2 h) (IsBytes-load buf off 2 b))

-- The bytes of the value of bytes.
pub le_bytes-le_value : (bs : List ℕ) → IsBytes bs → le_bytes (length bs) (le_value bs) ≡ bs
le_bytes-le_value [] h = refl
le_bytes-le_value (b ∷ bs) h =
    let low : (b + le_value bs * 256) % 256 ≡ b = omega arith in
    let rest : (b + le_value bs * 256) / 256 ≡ le_value bs = omega arith in
    ap₂ (λ x xs. x ∷ xs) low
      (ap (λ (v : ℕ). le_bytes (length bs) v) rest ∙ le_bytes-le_value bs h.1)
