-- ===== src/Crypto/Aead/Compare.antt =====
-- The comparison of tags, which looks at every byte.
use nova_net.Prelude.{
  ℕ, zero, suc, ◌^◌, ◌<◌, ◌≤◌, ◌/◌, ◌≡◌, refl, sym, ap₂, ◌∙◌, List, [], ◌∷◌, length, bit_or,
  bit_xor, arith,
}
use nova_net.Prelude.Bits.{bit_or-half, bit_or_comm, bit_or-zero}
use nova_net.Prelude.Xor.{bit_xor_cancel_right, bit_xor_self}
use nova_net.Wire.{IsBytes}
use nova_net.Crypto.Aead.{tag_diff}

le-bit_or : (n a b : ℕ) → a ≤ n → a ≤ bit_or a b
le-bit_or zero zero b h = omega arith
le-bit_or zero (suc a) b h = absurd (omega arith)
le-bit_or (suc n) a b h = omega (arith, bit_or-half a b, le-bit_or n (a / 2) (b / 2) (omega arith))

bit_or_none : (a b : ℕ) → bit_or a b ≡ 0 → (a ≡ 0) × (b ≡ 0)
bit_or_none a b e = (
  omega (arith, le-bit_or a a b (omega arith)),
  omega (arith, le-bit_or b b a (omega arith), bit_or_comm a b),
)

equal_bytes : (x y : ℕ) → x < 2 ^ 8 → y < 2 ^ 8 → bit_xor x y ≡ 0 → x ≡ y
equal_bytes x y p q e = bit_xor_cancel_right 8 x y y p q q (e ∙ sym (bit_xor_self 8 y q))

pub tag_diff-equal :
    (diff : ℕ) (xs ys : List ℕ)
    → IsBytes xs
    → IsBytes ys
    → length xs ≡ length ys
    → tag_diff diff xs ys ≡ 0
    → (diff ≡ 0) × (xs ≡ ys)
unfolding tag_diff
tag_diff-equal diff [] [] p q l e = (e, refl)
tag_diff-equal diff [] (y ∷ ys) p q l e = absurd (omega arith)
tag_diff-equal diff (x ∷ xs) [] p q l e = absurd (omega arith)
tag_diff-equal diff (x ∷ xs) (y ∷ ys) p q l e =
    let (head, tail) = tag_diff-equal (bit_or diff (bit_xor x y)) xs ys p.1 q.1 (omega arith) e in
    let (none, same) = bit_or_none diff (bit_xor x y) head in
    (none, ap₂ (λ b bs. b ∷ bs) (equal_bytes x y p.0 q.0 same) tail)

pub tag_diff_self : (xs : List ℕ) → IsBytes xs → tag_diff 0 xs xs ≡ 0
unfolding tag_diff
tag_diff_self [] p = refl
tag_diff_self (x ∷ xs) p = rw (bit_xor_self 8 x p.0) (rw (bit_or-zero 0) (tag_diff_self xs p.1))
