-- ===== src/LossWindow/Bytewise.antt =====
-- The steps of the portable `popcount64`, which work on every byte of a word by itself, so that the 256
-- bytes are enough to check.
use nova_net.Prelude.{
  ℕ, zero, suc, ◌+◌, ◌-◌, ◌*◌, ◌/◌, ◌%◌, ◌^◌, ◌<◌, ◌≤◌, ◌≡◌, refl, ap, ◌∙◌, inl, inr, List, [], ◌∷◌,
  bit_and, Bool, true, ◌&&◌, Bool-cases, leb, ◌==◌, ap₂, arith,
}
use nova_net.Prelude.Bits.{bit, bit_and-half, bit_and-zero, bit_and-mask, mul-pow-suc}
use nova_net.Prelude.Sum.{sum}
use native.Mathlib.Nat.{pow-suc}
use nova_net.Wire.{IsBytes, le_value}

all_below : ℕ → (ℕ → Bool) → Bool
all_below zero f = true
all_below (suc n) f = f n && all_below n f

below : (n : ℕ) (f : ℕ → Bool) (b : ℕ) → all_below n f ≡ true → b < n → f b ≡ true
unfolding all_below
below zero f b e h = absurd (omega arith)
below (suc n) f b e h = elim (Bool-cases (b == n)) [
  | inl same ↦
      let there : f n ≡ true = ground (arith, e) in
      ap f {x = b} {y = n} (ground (arith, same)) ∙ there
  | inr other ↦ below n f b (ground arith) (ground arith)
]

-- `&` acts on the low byte and on what is above it.
bit_and-split :
    (k a c x m : ℕ)
    → a < 2 ^ k
    → c < 2 ^ k
    → bit_and (a + x * 2 ^ k) (c + m * 2 ^ k) ≡ bit_and a c + bit_and x m * 2 ^ k
bit_and-split zero a c x m p q =
    let (a0, c0) : (a ≡ 0) × (c ≡ 0) = (omega arith, omega arith) in
    rw (a0, c0)
      (ap₂ bit_and {x = 0 + x * 1} {y = x} {u = 0 + m * 1} {v = m} (omega arith) (omega arith)
        ∙ omega arith)
bit_and-split (suc k) a c x m p q =
    let left : (a + x * 2 ^ suc k) / 2 ≡ a / 2 + x * 2 ^ k = omega (arith, mul-pow-suc x k) in
    let right : (c + m * 2 ^ suc k) / 2 ≡ c / 2 + m * 2 ^ k = omega (arith, mul-pow-suc m k) in
    let rest =
      bit_and-split k (a / 2) (c / 2) x m (omega (arith, pow-suc 2 k))
        (omega (arith, pow-suc 2 k)) in
    let halves = ap₂ bit_and left right ∙ rest in
    omega (
      arith,
      bit_and-half (a + x * 2 ^ suc k) (c + m * 2 ^ suc k),
      bit_and-half a c,
      halves,
      mul-pow-suc x k,
      mul-pow-suc m k,
      mul-pow-suc (bit_and x m) k,
    )

-- The three steps of a byte.
pub pairs : ℕ → ℕ
pairs b = b - bit_and (b / 2) 0x55

pub nibbles : ℕ → ℕ
nibbles b = bit_and b 0x33 + bit_and (b / 4) 0x33

pub digits : ℕ → ℕ
digits b = (b + b / 16) % 16

byte_fits : ℕ → Bool
byte_fits b =
    leb (bit_and (b / 2) 0x55) b
    && (leb (nibbles (pairs b)) 0x44
        && (leb (nibbles (pairs b) % 16) 4 && digits (nibbles (pairs b)) == sum 8 (bit b)))

bytes_fit : all_below 256 byte_fits ≡ true
unfolding all_below byte_fits pairs nibbles digits sum
bytes_fit = refl

byte_parts :
    (b : ℕ)
    → byte_fits b ≡ true
    → (bit_and (b / 2) 0x55 ≤ b)
      × (nibbles (pairs b) ≤ 0x44)
      × (nibbles (pairs b) % 16 ≤ 4)
      × (digits (nibbles (pairs b)) ≡ sum 8 (bit b))
unfolding byte_fits
byte_parts b e = (ground (arith, e), ground (arith, e), ground (arith, e), ground (arith, e))

pub byte_lem :
    (b : ℕ)
    → b < 256
    → (bit_and (b / 2) 0x55 ≤ b)
      × (nibbles (pairs b) ≤ 0x44)
      × (nibbles (pairs b) % 16 ≤ 4)
      × (digits (nibbles (pairs b)) ≡ sum 8 (bit b))
byte_lem b h = byte_parts b (below 256 byte_fits b bytes_fit h)

-- The byte that a mask repeats.
abbrev pub mask : ℕ → List ℕ → ℕ
mask c [] = 0
mask c (b ∷ bs) = c + mask c bs * 2 ^ 8

-- A masked byte does not see the digits that a shift brings in from above.
masked : (k a c t : ℕ) → a < 2 ^ k → c < 2 ^ k → bit_and (a + t * 2 ^ k) c ≡ bit_and a c
masked k a c t p q =
    ap (bit_and (a + t * 2 ^ k)) {x = c} {y = c + 0 * 2 ^ k} (omega arith)
    ∙ bit_and-split k a c t 0 p q
    ∙ rw (bit_and-zero t) (omega arith)

abbrev pub bytewise : (ℕ → ℕ) → List ℕ → ℕ
bytewise f [] = 0
bytewise f (b ∷ bs) = f b + bytewise f bs * 2 ^ 8

pub pairs_bytes :
    (bs : List ℕ)
    → IsBytes bs
    → bit_and (le_value bs / 2) (mask 0x55 bs) + bytewise pairs bs ≡ le_value bs
unfolding pairs
pairs_bytes [] h = refl
pairs_bytes (b ∷ bs) (p, h) =
    let y = le_value bs in
    let t = y % 2 in
    let halves : (b + y * 256) / 2 ≡ b / 2 + t * 2 ^ 7 + y / 2 * 2 ^ 8 = omega arith in
    let cut =
      ap (λ x. bit_and x (0x55 + mask 0x55 bs * 2 ^ 8)) halves
      ∙ bit_and-split 8 (b / 2 + t * 2 ^ 7) 0x55 (y / 2) (mask 0x55 bs) (omega arith)
          (omega arith) in
    omega (
      arith,
      cut,
      masked 7 (b / 2) 0x55 t (omega arith) (omega arith),
      (byte_lem b p).0,
      pairs_bytes bs h,
    )

pub nibbles_bytes :
    (f : ℕ → ℕ) (bs : List ℕ)
    → ((b : ℕ) → b < 256 → f b < 256)
    → IsBytes bs
    → bit_and (bytewise f bs) (mask 0x33 bs) + bit_and (bytewise f bs / 4) (mask 0x33 bs)
      ≡ bytewise (λ b. nibbles (f b)) bs
unfolding nibbles
nibbles_bytes f [] small h = refl
nibbles_bytes f (b ∷ bs) small (p, h) =
    let y = bytewise f bs in
    let c = f b in
    let fits = small b p in
    let t = y % 4 in
    let quarter : (c + y * 2 ^ 8) / 4 ≡ c / 4 + t * 2 ^ 6 + y / 4 * 2 ^ 8 = omega arith in
    let cut =
      ap (λ x. bit_and x (0x33 + mask 0x33 bs * 2 ^ 8)) quarter
      ∙ bit_and-split 8 (c / 4 + t * 2 ^ 6) 0x33 (y / 4) (mask 0x33 bs) (omega arith)
          (omega arith) in
    omega (
      arith,
      cut,
      bit_and-split 8 c 0x33 y (mask 0x33 bs) (omega arith) (omega arith),
      masked 6 (c / 4) 0x33 t (omega arith) (omega arith),
      nibbles_bytes f bs small h,
    )

-- Bytes whose halves are counts of at most four.
abbrev pub IsCounts : (ℕ → ℕ) → Type 0
IsCounts f = (b : ℕ) → b < 256 → (f b ≤ 0x44) × (f b % 16 ≤ 4)

low_count : (f : ℕ → ℕ) (bs : List ℕ) → IsCounts f → IsBytes bs → bytewise f bs % 16 ≤ 4
low_count f [] small h = omega arith
low_count f (b ∷ bs) small (p, h) = omega (arith, (small b p).1)

pub digits_bytes :
    (f : ℕ → ℕ) (bs : List ℕ)
    → IsCounts f
    → IsBytes bs
    → bit_and (bytewise f bs + bytewise f bs / 16) (mask 0x0F bs) ≡ bytewise (λ b. digits (f b)) bs
unfolding digits
digits_bytes f [] small h = refl
digits_bytes f (b ∷ bs) small (p, h) =
    let y = bytewise f bs in
    let c = f b in
    let (fits, low) = small b p in
    let above = low_count f bs small h in
    let t = y % 16 in
    let sixteenth : c + y * 2 ^ 8 + (c + y * 2 ^ 8) / 16
        ≡ c + c / 16 + t * 2 ^ 4 + (y + y / 16) * 2 ^ 8 =
      omega arith in
    let cut =
      ap (λ x. bit_and x (0x0F + mask 0x0F bs * 2 ^ 8)) sixteenth
      ∙ bit_and-split 8 (c + c / 16 + t * 2 ^ 4) 0x0F (y + y / 16) (mask 0x0F bs)
          (omega (arith, fits, above)) (omega arith) in
    let low_half = bit_and-mask 4 (c + c / 16 + t * 2 ^ 4) in
    omega (arith, cut, low_half, digits_bytes f bs small h)

pub counts : ℕ → ℕ
counts b = digits (nibbles (pairs b))

pub halves-IsCounts : IsCounts (λ b. nibbles (pairs b))
halves-IsCounts b h = ((byte_lem b h).1, (byte_lem b h).2)

pub pairs-lt : (b : ℕ) → b < 256 → pairs b < 256
unfolding pairs
pairs-lt b h = omega arith

pub counts-le : (b : ℕ) → b < 256 → counts b ≤ 8
unfolding counts digits
counts-le b h = omega (arith, byte_lem b h)

pub counts-digits : (b : ℕ) → b < 256 → counts b ≡ sum 8 (bit b)
unfolding counts
counts-digits b h = (byte_lem b h).3

pub counts_bytes :
    (bs : List ℕ)
    → IsBytes bs
    → let x2 = bytewise (λ b. nibbles (pairs b)) bs in
      bit_and (x2 + x2 / 16) (mask 0x0F bs) ≡ bytewise counts bs
unfolding counts
counts_bytes bs h = digits_bytes (λ b. nibbles (pairs b)) bs halves-IsCounts h
