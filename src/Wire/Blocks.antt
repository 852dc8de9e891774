-- ===== src/Wire/Blocks.antt =====
-- A fold over the blocks of a buffer, each of `size` bytes.
use nova_net.Prelude.{
  ℕ, zero, suc, ◌+◌, ◌*◌, ◌≤◌, ◌≡◌, refl, sym, ap, ap₂, ◌∙◌, List, [], ◌∷◌, ◌++◌, length,
  length-take, length-drop, take, drop, take-append-drop, arith,
}
use native.Mathlib.Nat.{zero-add, suc-add}

take-append_le : (n : ℕ) (xs ys : List ℕ) → n ≤ length xs → take n (xs ++ ys) ≡ take n xs
take-append_le zero xs ys h = refl
take-append_le (suc n) [] ys h = absurd (omega arith)
take-append_le (suc n) (x ∷ xs) ys h = ap (λ r. x ∷ r) (take-append_le n xs ys (omega arith))

drop-append_le : (n : ℕ) (xs ys : List ℕ) → n ≤ length xs → drop n (xs ++ ys) ≡ drop n xs ++ ys
drop-append_le zero xs ys h = refl
drop-append_le (suc n) [] ys h = absurd (omega arith)
drop-append_le (suc n) (x ∷ xs) ys h = drop-append_le n xs ys (omega arith)

empty : (xs : List ℕ) → length xs ≡ 0 → xs ≡ []
empty [] h = refl
empty (x ∷ xs) h = absurd (omega arith)

module _ {ℓ} {A : Type ℓ} (size : ℕ) (step : A → List ℕ → A) where
  abbrev pub fold_blocks : ℕ → A → List ℕ → A
  fold_blocks zero acc bytes = acc
  fold_blocks (suc rounds) acc bytes =
      fold_blocks rounds (step acc (take size bytes)) (drop size bytes)

  -- Joined lists of which the first has whole blocks.
  pub fold_blocks-append :
      (n m : ℕ) (acc : A) (xs ys : List ℕ)
      → length xs ≡ n * size
      → fold_blocks (n + m) acc (xs ++ ys) ≡ fold_blocks m (fold_blocks n acc xs) ys
  fold_blocks-append zero m acc xs ys h = rw (zero-add m, empty xs (omega arith)) refl
  fold_blocks-append (suc n) m acc xs ys h = rw (suc-add n m) (
      ap₂ (λ t d. fold_blocks (n + m) (step acc t) d) (take-append_le size xs ys (omega arith))
        (drop-append_le size xs ys (omega arith))
      ∙ fold_blocks-append n m (step acc (take size xs)) (drop size xs) ys
          (omega (arith, length-drop size xs)))

  -- The rounds read their blocks and no more.
  pub fold_blocks-take :
      (n : ℕ) (acc : A) (bs : List ℕ)
      → n * size ≤ length bs
      → fold_blocks n acc bs ≡ fold_blocks n acc (take (n * size) bs)
  fold_blocks-take n acc bs h =
      ap₂ (λ (k : ℕ) zs. fold_blocks k acc zs) {x = n} {y = n + 0} (omega arith)
        (sym (take-append-drop (n * size) bs))
      ∙ fold_blocks-append n 0 acc (take (n * size) bs) (drop (n * size) bs)
          (omega (arith, length-take (n * size) bs))
