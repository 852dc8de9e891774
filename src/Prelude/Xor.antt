-- ===== src/Prelude/Xor.antt =====
-- Exclusive or at variables: its width, its inverse, and its fields.
use Prim.Native.Nat.{ℕ, zero, suc, ◌+◌, ◌*◌, ◌/◌, ◌%◌, ◌^◌, ◌≤◌, ◌<◌, differ, bit_xor}
use mathlib.Core.Path.{◌≡◌, refl, ap, ◌∙◌, sym}
use native.Mathlib.Nat.{pow-suc, div-div-eq-div-mul, pow-succ', div-one}
use native.Mathlib.Omega.{arith}
use nova_net.Prelude.Bits.{bit_xor-half, below_one, mul-pow-suc}

differ-le-one : (x y : ℕ) → x ≤ 1 → y ≤ 1 → differ x y ≤ 1
differ-le-one zero y p q = q
differ-le-one (suc x) zero p q = p
differ-le-one (suc x) (suc y) p q = differ-le-one x y (omega arith) (omega arith)

differ_cancel : (x y : ℕ) → x ≤ 1 → y ≤ 1 → differ (differ x y) y ≡ x
differ_cancel zero zero p q = refl
differ_cancel zero (suc zero) p q = refl
differ_cancel zero (suc (suc y)) p q = absurd (omega arith)
differ_cancel (suc zero) zero p q = refl
differ_cancel (suc zero) (suc zero) p q = refl
differ_cancel (suc zero) (suc (suc y)) p q = absurd (omega arith)
differ_cancel (suc (suc x)) y p q = absurd (omega arith)

pub bit_xor-lt : (n a b : ℕ) → a < 2 ^ n → b < 2 ^ n → bit_xor a b < 2 ^ n
bit_xor-lt zero a b p q = rw (below_one p, below_one q) (omega arith)
bit_xor-lt (suc n) a b p q = omega (
  arith,
  bit_xor-half a b,
  differ-le-one (a % 2) (b % 2) (omega arith) (omega arith),
  pow-suc 2 n,
  bit_xor-lt n (a / 2) (b / 2) (omega (arith, pow-suc 2 n)) (omega (arith, pow-suc 2 n)),
)

pub half-bit_xor : (a b : ℕ) → bit_xor a b / 2 ≡ bit_xor (a / 2) (b / 2)
half-bit_xor a b =
    omega (arith, bit_xor-half a b, differ-le-one (a % 2) (b % 2) (omega arith) (omega arith))

pub low-bit_xor : (a b : ℕ) → bit_xor a b % 2 ≡ differ (a % 2) (b % 2)
low-bit_xor a b =
    omega (arith, bit_xor-half a b, differ-le-one (a % 2) (b % 2) (omega arith) (omega arith))

-- Exclusive or undoes itself.
pub bit_xor_cancel : (n a b : ℕ) → a < 2 ^ n → b < 2 ^ n → bit_xor (bit_xor a b) b ≡ a
bit_xor_cancel zero a b p q = rw (below_one p, below_one q)
bit_xor_cancel (suc n) a b p q =
    let again : bit_xor (bit_xor (a / 2) (b / 2)) (b / 2) ≡ a / 2 =
      bit_xor_cancel n (a / 2) (b / 2) (omega (arith, pow-suc 2 n)) (omega (arith, pow-suc 2 n)) in
    bit_xor-half (bit_xor a b) b
    ∙ rw (half-bit_xor a b, low-bit_xor a b, again)
        (omega (arith, differ_cancel (a % 2) (b % 2) (omega arith) (omega arith)))

pub bit_xor-zero : (n a : ℕ) → a < 2 ^ n → bit_xor a 0 ≡ a
bit_xor-zero zero a p = rw (below_one p)
bit_xor-zero (suc n) a p = omega (
  arith,
  bit_xor-half a 0,
  bit_xor-zero n (a / 2) (omega (arith, pow-suc 2 n)),
  differ-zero (a % 2),
)
  where
    differ-zero : (x : ℕ) → differ x 0 ≡ x
    differ-zero zero = refl
    differ-zero (suc x) = refl

pub bit_xor_self : (n a : ℕ) → a < 2 ^ n → bit_xor a a ≡ 0
bit_xor_self zero a p = rw (below_one p)
bit_xor_self (suc n) a p = omega (
  arith,
  bit_xor-half a a,
  bit_xor_self n (a / 2) (omega (arith, pow-suc 2 n)),
  differ_self (a % 2),
)
  where
    differ_self : (x : ℕ) → differ x x ≡ 0
    differ_self zero = refl
    differ_self (suc x) = differ_self x

differ_comm : (x y : ℕ) → differ x y ≡ differ y x
differ_comm zero zero = refl
differ_comm zero (suc y) = refl
differ_comm (suc x) zero = refl
differ_comm (suc x) (suc y) = differ_comm x y

pub bit_xor_comm : (n a b : ℕ) → a < 2 ^ n → b < 2 ^ n → bit_xor a b ≡ bit_xor b a
bit_xor_comm zero a b p q = rw (below_one p, below_one q)
bit_xor_comm (suc n) a b p q = omega (
  arith,
  bit_xor-half a b,
  bit_xor-half b a,
  differ_comm (a % 2) (b % 2),
  bit_xor_comm n (a / 2) (b / 2) (omega (arith, pow-suc 2 n)) (omega (arith, pow-suc 2 n)),
)

differ_assoc : (x y z : ℕ) → x ≤ 1 → y ≤ 1 → z ≤ 1 → differ (differ x y) z ≡ differ x (differ y z)
differ_assoc zero y z p q r = refl
differ_assoc (suc zero) zero z p q r = refl
differ_assoc (suc zero) (suc zero) zero p q r = refl
differ_assoc (suc zero) (suc zero) (suc zero) p q r = refl
differ_assoc (suc zero) (suc zero) (suc (suc z)) p q r = absurd (omega arith)
differ_assoc (suc zero) (suc (suc y)) z p q r = absurd (omega arith)
differ_assoc (suc (suc x)) y z p q r = absurd (omega arith)

pub bit_xor_assoc :
    (n a b c : ℕ)
    → a < 2 ^ n
    → b < 2 ^ n
    → c < 2 ^ n
    → bit_xor (bit_xor a b) c ≡ bit_xor a (bit_xor b c)
bit_xor_assoc zero a b c p q r = rw (below_one p, below_one q, below_one r)
bit_xor_assoc (suc n) a b c p q r =
    let halves =
      bit_xor_assoc n (a / 2) (b / 2) (c / 2) (omega (arith, pow-suc 2 n))
        (omega (arith, pow-suc 2 n)) (omega (arith, pow-suc 2 n)) in
    let lows = differ_assoc (a % 2) (b % 2) (c % 2) (omega arith) (omega arith) (omega arith) in
    bit_xor-half (bit_xor a b) c
    ∙ rw (half-bit_xor a b, low-bit_xor a b, halves, lows)
        (sym (bit_xor-half a (bit_xor b c) ∙ rw (half-bit_xor b c, low-bit_xor b c)))

-- Exclusive or commutes with a shift to the right.
pub bit_xor-shr : (k a b : ℕ) → bit_xor a b / 2 ^ k ≡ bit_xor (a / 2 ^ k) (b / 2 ^ k)
bit_xor-shr zero a b = rw (div-one, div-one, div-one)
bit_xor-shr (suc k) a b =
    rw
      (
        pow-succ' 2 k,
        ← div-div-eq-div-mul,
        ← div-div-eq-div-mul,
        ← div-div-eq-div-mul,
        half-bit_xor a b,
      )
      (bit_xor-shr k (a / 2) (b / 2))

-- `^` of disjoint fields is a sum.
pub bit_xor-add : (k q r : ℕ) → q < 2 ^ 64 → r < 2 ^ k → bit_xor (q * 2 ^ k) r ≡ q * 2 ^ k + r
bit_xor-add zero q r p h = ground (arith, bit_xor-zero 64 q p)
bit_xor-add (suc k) q r p h =
    ground
      (arith, bit_xor-half (q * 2 ^ suc k) r, mul-pow-suc q k, pow-suc 2 k, bit_xor-add k q (r / 2))

-- The parts of two sums of `^` change places.
pub bit_xor_interchange :
    (n a b c d : ℕ)
    → a < 2 ^ n
    → b < 2 ^ n
    → c < 2 ^ n
    → d < 2 ^ n
    → bit_xor (bit_xor a b) (bit_xor c d) ≡ bit_xor (bit_xor a c) (bit_xor b d)
bit_xor_interchange n a b c d p q r s =
    bit_xor_assoc n a b (bit_xor c d) p q (bit_xor-lt n c d r s)
    ∙ ap (bit_xor a) (
        sym (bit_xor_assoc n b c d q r s)
        ∙ ap (λ (t : ℕ). bit_xor t d) (bit_xor_comm n b c q r)
        ∙ bit_xor_assoc n c b d r q s)
    ∙ sym (bit_xor_assoc n a c (bit_xor b d) p r (bit_xor-lt n b d q s))

pub bit_xor_cancel_right :
    (n a b c : ℕ) → a < 2 ^ n → b < 2 ^ n → c < 2 ^ n → bit_xor a c ≡ bit_xor b c → a ≡ b
bit_xor_cancel_right n a b c p q r e =
    sym (bit_xor_cancel n a c p r) ∙ ap (λ (t : ℕ). bit_xor t c) e ∙ bit_xor_cancel n b c q r
