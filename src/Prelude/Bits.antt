-- ===== src/Prelude/Bits.antt =====
-- Binary digits at variables: the digit `bit x k`, what each operation does to the digits, and
-- the operations as arithmetic where their arguments have disjoint digits.
use Prim.Native.Nat.{
  ℕ, zero, suc, ◌+◌, ◌-◌, ◌*◌, ◌/◌, ◌%◌, ◌^◌, ◌≤◌, ◌<◌, min, max, digits, bitwise, differ, bit_and,
  bit_or, bit_xor, bit_and-bitwise, bit_or-bitwise, bit_xor-bitwise,
}
use mathlib.Core.Path.{◌≡◌, refl, ap, ◌∙◌, ◌≡⟨◌⟩◌, ◌∎}
use native.Mathlib.Nat.{
  pow-suc, one-le-pow, mod-lt, mod-eq_of_lt, mul-add-mod_self_right, div-add-mod', mul_assoc,
  mod-one, div-div-eq-div-mul, pow-succ',
}
use native.Mathlib.Omega.{arith}
use nova_net.Prelude.Tests.{ltb, ◌==◌, if◌then◌else◌}

-- One layer of the recursion on digits, whatever the digit operation, once the fuel is spent or not.
module _ (z : ℕ → ℕ) (f : ℕ → ℕ → ℕ) where
  digits-fuel : (n m a b : ℕ) → a ≤ n → a ≤ m → digits z f n a b ≡ digits z f m a b
  digits-fuel zero zero zero b p q = refl
  digits-fuel zero (suc m) zero b p q = refl
  digits-fuel (suc n) zero zero b p q = refl
  digits-fuel (suc n) (suc m) zero b p q = refl
  digits-fuel zero m (suc a) b p q = absurd (omega arith)
  digits-fuel (suc n) zero (suc a) b p q = absurd (omega arith)
  digits-fuel (suc n) (suc m) (suc a) b p q =
      ap (λ (t : ℕ). t * 2 + f (suc a % 2) (b % 2))
        (digits-fuel n m (suc a / 2) (b / 2) (omega arith) (omega arith))

  -- The fuel that is left does not matter, so the halves are combined anew.
  layer :
      (x y : ℕ)
      → bitwise z f (suc x) y ≡ bitwise z f (suc x / 2) (y / 2) * 2 + f (suc x % 2) (y % 2)
  layer x y =
      let same : digits z f x (suc x / 2) (y / 2) ≡ digits z f (suc x / 2) (suc x / 2) (y / 2) =
        digits-fuel x (suc x / 2) (suc x / 2) (y / 2) (omega arith) (omega arith) in
      ap (λ (high : ℕ). high * 2 + f (suc x % 2) (y % 2)) same

pub bit_and-half : (a b : ℕ) → bit_and a b ≡ bit_and (a / 2) (b / 2) * 2 + min (a % 2) (b % 2)
bit_and-half zero b = simp bit_and-bitwise (omega arith)
bit_and-half (suc a) b = simp bit_and-bitwise (layer (λ _. 0) min a b)

pub bit_or-half : (a b : ℕ) → bit_or a b ≡ bit_or (a / 2) (b / 2) * 2 + max (a % 2) (b % 2)
bit_or-half zero b = simp bit_or-bitwise (omega arith)
bit_or-half (suc a) b = simp bit_or-bitwise (layer (λ y. y) max a b)

pub bit_xor-half : (a b : ℕ) → bit_xor a b ≡ bit_xor (a / 2) (b / 2) * 2 + differ (a % 2) (b % 2)
bit_xor-half zero b = simp bit_xor-bitwise (omega arith)
bit_xor-half (suc a) b = simp bit_xor-bitwise (layer (λ y. y) differ a b)

-- The `k`-th binary digit of `x`.
abbrev pub bit : ℕ → ℕ → ℕ
bit x zero = x % 2
bit x (suc k) = bit (x / 2) k

bit_cong : {x y : ℕ} (k : ℕ) → x ≡ y → bit x k ≡ bit y k
bit_cong k e = ap (λ (t : ℕ). bit t k) e

pub bit-le-one : (x k : ℕ) → bit x k ≤ 1
bit-le-one x zero = omega arith
bit-le-one x (suc k) = bit-le-one (x / 2) k

pub bit-bit_and : (a b k : ℕ) → bit (bit_and a b) k ≡ min (bit a k) (bit b k)
bit-bit_and a b zero = omega (arith, bit_and-half a b)
bit-bit_and a b (suc k) =
    bit_cong k (omega (arith, bit_and-half a b)) ∙ bit-bit_and (a / 2) (b / 2) k

pub bit-bit_or : (a b k : ℕ) → bit (bit_or a b) k ≡ max (bit a k) (bit b k)
bit-bit_or a b zero = omega (arith, bit_or-half a b)
bit-bit_or a b (suc k) = bit_cong k (omega (arith, bit_or-half a b)) ∙ bit-bit_or (a / 2) (b / 2) k

-- Doubling shifts the digits up.
pub bit-double : (x k : ℕ) → bit (x * 2) (suc k) ≡ bit x k
bit-double x k = bit_cong k (omega arith)

pub mul-pow-suc : (q k : ℕ) → q * 2 ^ suc k ≡ q * 2 ^ k * 2
mul-pow-suc q k = omega (arith, ap (λ (t : ℕ). q * t) (pow-suc 2 k))

-- The digits of `x << s`.
pub bit-shl : (x s k : ℕ) → bit (x * 2 ^ s) k ≡ (if ltb k s then 0 else bit x (k - s))
bit-shl x zero k = ground arith
bit-shl x (suc s) zero = ground (arith, mul-pow-suc x s)
bit-shl x (suc s) (suc k) =
    bit_cong k (omega (arith, mul-pow-suc x s)) ∙ bit-shl x s k ∙ ground arith

half-pow : (s : ℕ) → 2 ^ suc s / 2 ≡ 2 ^ s
half-pow s = omega (arith, pow-suc 2 s)

pub bit_zero : (k : ℕ) → bit 0 k ≡ 0
bit_zero zero = refl
bit_zero (suc k) = bit_zero k

-- The digits of `1 << s`.
pub bit-pow : (s k : ℕ) → bit (2 ^ s) k ≡ (if s == k then 1 else 0)
bit-pow zero zero = refl
bit-pow zero (suc k) = ground (arith, bit_zero k)
bit-pow (suc s) zero = ground (arith, pow-suc 2 s)
bit-pow (suc s) (suc k) = bit_cong k (half-pow s) ∙ ground (arith, bit-pow s k)

-- A remainder by `2 ^ suc n`, digit by digit.
pub mod-pow-suc : (x n : ℕ) → x % 2 ^ suc n ≡ x / 2 % 2 ^ n * 2 + x % 2
mod-pow-suc x n =
    let m : ℕ = 2 ^ n in
    let q : ℕ = x / 2 / m in
    let r : ℕ = x / 2 % m * 2 + x % 2 in
    let below : r < m * 2 =
      omega (arith, mod-lt (x / 2) {m = 2 ^ n} (one-le-pow n 2 (omega arith))) in
    x % 2 ^ suc n
    ≡⟨ ap (λ (t : ℕ). x % t) (pow-suc 2 n) ⟩ x % (m * 2)
    ≡⟨ ap (λ (t : ℕ). t % (m * 2)) (parts m) ⟩ (q * (m * 2) + r) % (m * 2)
    ≡⟨ mul-add-mod_self_right q (m * 2) r ⟩ r % (m * 2)
    ≡⟨ mod-eq_of_lt below ⟩ r ∎
  where
    parts : (m : ℕ) → x ≡ x / 2 / m * (m * 2) + (x / 2 % m * 2 + x % 2)
    parts m = omega (arith, div-add-mod' (x / 2) m, mul_assoc (x / 2 / m) m 2)

half-mod : (x n : ℕ) → x % 2 ^ suc n / 2 ≡ x / 2 % 2 ^ n
half-mod x n = omega (arith, mod-pow-suc x n)

-- The digits that a cast to `n` bits leaves.
pub bit-mod_pow : (n x k : ℕ) → bit (x % 2 ^ n) k ≡ (if ltb k n then bit x k else 0)
bit-mod_pow zero x k = bit_cong k (mod-one x) ∙ bit_zero k ∙ ground arith
bit-mod_pow (suc n) x zero = ground (arith, mod-pow-suc x n)
bit-mod_pow (suc n) x (suc k) = bit_cong k (half-mod x n) ∙ ground (arith, bit-mod_pow n (x / 2) k)

-- Two numbers of `n` bits with the same digits are the same.
pub bit_ext : (n a b : ℕ) → a < 2 ^ n → b < 2 ^ n → ((k : ℕ) → k < n → bit a k ≡ bit b k) → a ≡ b
bit_ext zero a b p q h = omega arith
bit_ext (suc n) a b p q h = omega (
  arith,
  h 0 (omega arith),
  bit_ext n (a / 2) (b / 2) (omega (arith, pow-suc 2 n)) (omega (arith, pow-suc 2 n))
      (λ k r. h (suc k) (omega arith)),
)

-- `| 0` keeps a number and `& 0` clears it, by recursion on a bound of the number.
zero_right : (bound x : ℕ) → x ≤ bound → (bit_or x 0 ≡ x) × (bit_and x 0 ≡ 0)
zero_right bound zero p = (refl, refl)
zero_right zero (suc x) p = absurd (omega arith)
zero_right (suc bound) (suc x) p =
    let half = zero_right bound (suc x / 2) (omega arith) in
    (omega (arith, bit_or-half (suc x) 0, half.0), omega (arith, bit_and-half (suc x) 0, half.1))

pub bit_or-zero : (a : ℕ) → bit_or a 0 ≡ a
bit_or-zero a = (zero_right a a (omega arith)).0

pub bit_and-zero : (a : ℕ) → bit_and a 0 ≡ 0
bit_and-zero a = (zero_right a a (omega arith)).1

-- `|` of disjoint fields is a sum.
pub bit_or-add : (k q r : ℕ) → r < 2 ^ k → bit_or (q * 2 ^ k) r ≡ q * 2 ^ k + r
bit_or-add zero q r h = ground (arith, bit_or-zero q)
bit_or-add (suc k) q r h =
    ground
      (arith, bit_or-half (q * 2 ^ suc k) r, mul-pow-suc q k, pow-suc 2 k, bit_or-add k q (r / 2))

half-mask : (k : ℕ) → (2 ^ suc k - 1) / 2 ≡ 2 ^ k - 1
half-mask k = omega (arith, pow-suc 2 k, one-le-pow k 2 (omega arith))

low-mask : (k : ℕ) → (2 ^ suc k - 1) % 2 ≡ 1
low-mask k = omega (arith, pow-suc 2 k, one-le-pow k 2 (omega arith))

-- `&` with a mask of `k` ones is a remainder.
pub bit_and-mask : (k a : ℕ) → bit_and a (2 ^ k - 1) ≡ a % 2 ^ k
bit_and-mask zero a = omega (arith, bit_and-zero a)
bit_and-mask (suc k) a = omega (
  arith,
  bit_and-half a (2 ^ suc k - 1),
  half-mask k,
  low-mask k,
  mod-pow-suc a k,
  bit_and-mask k (a / 2),
  ap (λ (t : ℕ). bit_and (a / 2) t) (half-mask k),
)

pub below_one : {a : ℕ} → a < 1 → a ≡ 0
below_one h = omega arith

pub bit_or-lt : (n a b : ℕ) → a < 2 ^ n → b < 2 ^ n → bit_or a b < 2 ^ n
bit_or-lt zero a b p q = rw (below_one p, below_one q) (omega arith)
bit_or-lt (suc n) a b p q = omega (
  arith,
  bit_or-half a b,
  pow-suc 2 n,
  bit_or-lt n (a / 2) (b / 2) (omega (arith, pow-suc 2 n)) (omega (arith, pow-suc 2 n)),
)

bit_or_comm_fuel : (n a b : ℕ) → a ≤ n → b ≤ n → bit_or a b ≡ bit_or b a
bit_or_comm_fuel zero zero zero p q = refl
bit_or_comm_fuel zero zero (suc b) p q = absurd (omega arith)
bit_or_comm_fuel zero (suc a) b p q = absurd (omega arith)
bit_or_comm_fuel (suc n) a b p q = omega (
  arith,
  bit_or-half a b,
  bit_or-half b a,
  bit_or_comm_fuel n (a / 2) (b / 2) (omega arith) (omega arith),
)

pub bit_or_comm : (a b : ℕ) → bit_or a b ≡ bit_or b a
bit_or_comm a b = bit_or_comm_fuel (a + b) a b (omega arith) (omega arith)

half_double : (x : ℕ) → x * 2 / 2 ≡ x
half_double x = omega arith

low_double : (x : ℕ) → x * 2 % 2 ≡ 0
low_double x = omega arith

-- `&` with a mask whose `k` low digits are clear.
pub bit_and-shl : (k a m : ℕ) → bit_and a (m * 2 ^ k) ≡ bit_and (a / 2 ^ k) m * 2 ^ k
bit_and-shl zero a m = ground arith
bit_and-shl (suc k) a m =
    bit_and-half a (m * 2 ^ suc k)
    ∙ rw (mul-pow-suc m k, half_double (m * 2 ^ k), low_double (m * 2 ^ k))
        (rw (bit_and-shl k (a / 2) m, div-div-eq-div-mul a 2 (2 ^ k), pow-succ' 2 k) (omega arith))

-- `|` with a field above the digits of the other side.
pub bit_or-add_right : (k r q : ℕ) → r < 2 ^ k → bit_or r (q * 2 ^ k) ≡ r + q * 2 ^ k
bit_or-add_right k r q p = bit_or_comm r (q * 2 ^ k) ∙ omega (arith, bit_or-add k q r p)

-- A field of `w` digits at digit `k`, cut out by a mask in place.
pub bit_and-field : (w k a : ℕ) → bit_and a ((2 ^ w - 1) * 2 ^ k) ≡ a / 2 ^ k % 2 ^ w * 2 ^ k
bit_and-field w k a = bit_and-shl k a (2 ^ w - 1) ∙ rw (bit_and-mask w (a / 2 ^ k))

pub bit_and-le : (n a b : ℕ) → b < 2 ^ n → bit_and a b < 2 ^ n
bit_and-le zero a b h = omega (arith, ap (bit_and a) (below_one h), bit_and-zero a)
bit_and-le (suc n) a b h = omega (
  arith,
  bit_and-half a b,
  pow-suc 2 n,
  bit_and-le n (a / 2) (b / 2) (omega (arith, pow-suc 2 n)),
)
