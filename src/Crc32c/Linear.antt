-- ===== src/Crc32c/Linear.antt =====
-- The table computes the bitwise checksum: each round is eight steps of the recipe.
use nova_net.Prelude.{
  ℕ, zero, suc, ◌*◌, ◌/◌, ◌%◌, ◌^◌, ◌<◌, ◌≡◌, refl, sym, ap, ap₂, ◌∙◌, List, [], ◌∷◌, get_or,
  bit_and, bit_xor, ◌==◌, if◌then◌else◌, not32, arith,
}
use Prim.Native.Nat.{differ}
use native.Mathlib.Nat.{pow-suc}
use nova_net.Prelude.Bits.{bit_and-mask}
use nova_net.Prelude.Xor.{
  half-bit_xor, low-bit_xor, bit_xor-lt, bit_xor-zero, bit_xor-shr, bit_xor-add,
  bit_xor_interchange, bit_xor_comm,
}
use nova_net.Wire.{IsBytes}
use nova_net.Crc32c.Table.{crc32c_table, polynomial, crc_step, crc_steps, get_or-table}
use nova_net.Crc32c.{table_round, table_loop, crc32c_software}

-- What a step adds for the digit that it shifts out.
unfoldable pub feedback : ℕ → ℕ
feedback x = if x % 2 == 1 then polynomial else 0

pub crc_step-feedback : (x : ℕ) → crc_step x ≡ bit_xor (x / 2) (feedback x)
unfolding crc_step feedback
crc_step-feedback x = ground (arith, bit_and-mask 1 x)

feedback-lt : (x : ℕ) → feedback x < 2 ^ 32
unfolding feedback
feedback-lt x = ground arith

pub crc_step-lt : (x : ℕ) → x < 2 ^ 32 → crc_step x < 2 ^ 32
crc_step-lt x h =
    rw (crc_step-feedback x) (bit_xor-lt 32 (x / 2) (feedback x) (omega arith) (feedback-lt x))

pub crc_steps-lt : (n x : ℕ) → x < 2 ^ 32 → crc_steps n x < 2 ^ 32
unfolding crc_steps
crc_steps-lt zero x h = h
crc_steps-lt (suc n) x h = crc_steps-lt n (crc_step x) (crc_step-lt x h)

feedback-xor : (a b : ℕ) → feedback (bit_xor a b) ≡ bit_xor (feedback a) (feedback b)
unfolding feedback
feedback-xor a b = rw (low-bit_xor a b) (digits (a % 2) (b % 2) (omega arith) (omega arith))
  where
    digits :
        (x y : ℕ)
        → x < 2
        → y < 2
        → (if differ x y == 1 then polynomial else 0)
          ≡ bit_xor (if x == 1 then polynomial else 0) (if y == 1 then polynomial else 0)
    digits zero zero p q = refl
    digits zero (suc zero) p q = refl
    digits zero (suc (suc y)) p q = absurd (omega arith)
    digits (suc zero) zero p q = refl
    digits (suc zero) (suc zero) p q = refl
    digits (suc zero) (suc (suc y)) p q = absurd (omega arith)
    digits (suc (suc x)) y p q = absurd (omega arith)

crc_step-xor :
    (a b : ℕ) → a < 2 ^ 32 → b < 2 ^ 32 → crc_step (bit_xor a b) ≡ bit_xor (crc_step a) (crc_step b)
crc_step-xor a b p q =
    rw
      (
        crc_step-feedback (bit_xor a b),
        crc_step-feedback a,
        crc_step-feedback b,
        half-bit_xor a b,
        feedback-xor a b,
      )
      (bit_xor_interchange 32 (a / 2) (b / 2) (feedback a) (feedback b) (omega arith) (omega arith)
        (feedback-lt a) (feedback-lt b))

-- The steps are linear.
crc_steps-xor :
    (n a b : ℕ)
    → a < 2 ^ 32
    → b < 2 ^ 32
    → crc_steps n (bit_xor a b) ≡ bit_xor (crc_steps n a) (crc_steps n b)
unfolding crc_steps
crc_steps-xor zero a b p q = refl
crc_steps-xor (suc n) a b p q =
    ap (crc_steps n) (crc_step-xor a b p q)
    ∙ crc_steps-xor n (crc_step a) (crc_step b) (crc_step-lt a p) (crc_step-lt b q)

crc_step_even : (x : ℕ) → x < 2 ^ 32 → crc_step (x * 2) ≡ x
crc_step_even x p = crc_step-feedback (x * 2) ∙ unfold feedback in ground (arith, bit_xor-zero 32 x)

-- Steps shift the digits above them down unchanged.
crc_steps_high : (n h : ℕ) → h * 2 ^ n < 2 ^ 32 → crc_steps n (h * 2 ^ n) ≡ h
unfolding crc_steps
crc_steps_high zero h p = omega arith
crc_steps_high (suc n) h p =
    let e : h * 2 ^ suc n ≡ (h * 2 ^ n) * 2 = omega (arith, ap (λ (t : ℕ). h * t) (pow-suc 2 n)) in
    ap (crc_steps n) (ap crc_step e ∙ crc_step_even (h * 2 ^ n) (omega arith))
    ∙ crc_steps_high n h (omega arith)

-- A round of the table is eight steps of the recipe on the checksum with the byte put in.
pub table_round-steps :
    (crc b : ℕ) → crc < 2 ^ 32 → b < 256 → table_round crc b ≡ crc_steps 8 (bit_xor crc b)
unfolding table_round
table_round-steps crc b p q =
    let x = bit_xor crc b in
    let lt : x < 2 ^ 32 = bit_xor-lt 32 crc b p (omega arith) in
    let low : bit_and x 0xFF ≡ x % 256 = bit_and-mask 8 x in
    let quotient : x / 256 ≡ crc / 256 =
      bit_xor-shr 8 crc b ∙ rw (below b q) (bit_xor-zero 32 (crc / 256) (omega arith)) in
    let split : x ≡ bit_xor (x / 256 * 2 ^ 8) (x % 256) =
      omega (arith, bit_xor-add 8 (x / 256) (x % 256) (omega arith) (omega arith)) in
    let upper : crc_steps 8 (x / 256 * 2 ^ 8) ≡ x / 256 =
      crc_steps_high 8 (x / 256) (omega arith) in
    let entry : get_or crc32c_table (x % 256) 0 ≡ crc_steps 8 (x % 256) =
      get_or-table (x % 256) (omega arith) in
    let entry_lt : crc_steps 8 (x % 256) < 2 ^ 32 = crc_steps-lt 8 (x % 256) (omega arith) in
    ap₂ bit_xor (ap (λ (i : ℕ). get_or crc32c_table i 0) low ∙ entry) (sym quotient)
    ∙ bit_xor_comm 32 (crc_steps 8 (x % 256)) (x / 256) entry_lt (omega arith)
    ∙ sym (
        ap (crc_steps 8) split
        ∙ crc_steps-xor 8 (x / 256 * 2 ^ 8) (x % 256) (omega arith) (omega arith)
        ∙ ap (λ (t : ℕ). bit_xor t (crc_steps 8 (x % 256))) upper)
  where
    below : (b : ℕ) → b < 256 → b / 256 ≡ 0
    below b q = omega arith

-- The bitwise register: each byte is put into the low digits, then eight steps.
abbrev pub bitwise : ℕ → List ℕ → ℕ
bitwise crc [] = crc
bitwise crc (b ∷ bs) = bitwise (crc_steps 8 (bit_xor crc b)) bs

pub round-lt : (x b : ℕ) → x < 2 ^ 32 → b < 256 → crc_steps 8 (bit_xor x b) < 2 ^ 32
round-lt x b p h = crc_steps-lt 8 (bit_xor x b) (bit_xor-lt 32 x b p (omega arith))

pub bitwise-lt : (x : ℕ) (bs : List ℕ) → x < 2 ^ 32 → IsBytes bs → bitwise x bs < 2 ^ 32
bitwise-lt x [] p h = p
bitwise-lt x (b ∷ bs) p h = bitwise-lt (crc_steps 8 (bit_xor x b)) bs (round-lt x b p h.0) h.1

pub table_loop-bitwise :
    (crc : ℕ) (bs : List ℕ) → crc < 2 ^ 32 → IsBytes bs → table_loop crc bs ≡ bitwise crc bs
unfolding table_loop
table_loop-bitwise crc [] p h = refl
table_loop-bitwise crc (b ∷ bs) p h =
    ap (λ (t : ℕ). table_loop t bs) (table_round-steps crc b p h.0)
    ∙ table_loop-bitwise (crc_steps 8 (bit_xor crc b)) bs (round-lt crc b p h.0) h.1

-- The software checksum of bytes, from a start below 2^32, is the bitwise one of the reflected
-- polynomial 0x82F63B78, with the register complemented before and after.
pub crc32c_software-bitwise :
    (crc : ℕ) (buf : List ℕ)
    → crc < 2 ^ 32
    → IsBytes buf
    → crc32c_software crc buf ≡ not32 (bitwise (not32 crc) buf)
unfolding crc32c_software
crc32c_software-bitwise crc buf p h = ap not32 (table_loop-bitwise (not32 crc) buf (omega arith) h)
