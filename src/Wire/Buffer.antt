-- ===== src/Wire/Buffer.antt =====
-- Stores into a buffer and loads from it: what a load sees of a store, and that a store within the
-- buffer replaces just its bytes.
use nova_net.Prelude.{
  ℕ, zero, suc, ◌+◌, ◌≤◌, ◌<◌, ◌≡◌, refl, ap, ◌∙◌, List, [], ◌∷◌, ◌++◌, length, take, drop, get_or,
  arith, take-append_length, ◌/◌, drop-drop, take-nil,
}
use native.Mathlib.Nat.{suc-add, zero-add}
use nova_net.Wire.{store, load, le_bytes}

pub length-store : (buf : List ℕ) (off : ℕ) (bs : List ℕ) → length (store buf off bs) ≡ length buf
length-store [] off bs = refl
length-store (x ∷ xs) zero [] = refl
length-store (x ∷ xs) zero (b ∷ bs) = ap suc (length-store xs zero bs)
length-store (x ∷ xs) (suc off) bs = ap suc (length-store xs off bs)

store_front :
    (buf bs : List ℕ) → length bs ≤ length buf → store buf 0 bs ≡ bs ++ drop (length bs) buf
store_front [] [] h = refl
store_front [] (b ∷ bs) h = absurd (omega arith)
store_front (x ∷ xs) [] h = refl
store_front (x ∷ xs) (b ∷ bs) h = ap (λ r. b ∷ r) (store_front xs bs (omega arith))

-- A store within the buffer leaves what stands before and behind it.
pub store_lem :
    (buf : List ℕ) (off : ℕ) (bs : List ℕ)
    → off + length bs ≤ length buf
    → store buf off bs ≡ take off buf ++ (bs ++ drop (off + length bs) buf)
store_lem buf zero bs h =
    store_front buf bs (omega arith) ∙ ap (λ k. bs ++ drop k buf) (omega arith)
store_lem [] (suc off) bs h = absurd (omega arith)
store_lem (x ∷ xs) (suc off) bs h =
    rw (suc-add off (length bs)) (ap (λ r. x ∷ r) (store_lem xs off bs (omega arith)))

-- A load at the stored bytes gives them back.
pub load-store :
    (buf : List ℕ) (off : ℕ) (bs : List ℕ)
    → off + length bs ≤ length buf
    → load (store buf off bs) off (length bs) ≡ bs
load-store buf zero bs h = rw (store_front buf bs (omega arith)) (take-append_length bs _)
load-store [] (suc off) [] h = refl
load-store [] (suc off) (b ∷ bs) h = absurd (omega arith)
load-store (x ∷ xs) (suc off) bs h = load-store xs off bs (omega arith)

-- A load in front of the stored bytes does not see them.
pub load-store_before :
    (buf : List ℕ) (off : ℕ) (bs : List ℕ) (o n : ℕ)
    → o + n ≤ off
    → load (store buf off bs) o n ≡ load buf o n
load-store_before [] off bs o n h = refl
load-store_before (x ∷ xs) zero bs zero zero h = refl
load-store_before (x ∷ xs) zero bs (suc o) n h = absurd (omega arith)
load-store_before (x ∷ xs) zero bs zero (suc n) h = absurd (omega arith)
load-store_before (x ∷ xs) (suc off) bs zero zero h = refl
load-store_before (x ∷ xs) (suc off) bs zero (suc n) h =
    ap (λ r. x ∷ r) (load-store_before xs off bs zero n (omega arith))
load-store_before (x ∷ xs) (suc off) bs (suc o) n h = load-store_before xs off bs o n (omega arith)

-- A load behind the stored bytes does not see them.
pub load-store_after :
    (buf : List ℕ) (off : ℕ) (bs : List ℕ) (o n : ℕ)
    → off + length bs ≤ o
    → load (store buf off bs) o n ≡ load buf o n
load-store_after [] off bs o n h = refl
load-store_after (x ∷ xs) zero [] o n h = refl
load-store_after (x ∷ xs) zero (b ∷ bs) zero n h = absurd (omega arith)
load-store_after (x ∷ xs) zero (b ∷ bs) (suc o) n h = load-store_after xs zero bs o n (omega arith)
load-store_after (x ∷ xs) (suc off) bs zero n h = absurd (omega arith)
load-store_after (x ∷ xs) (suc off) bs (suc o) n h = load-store_after xs off bs o n (omega arith)

pub length-le_bytes : (n v : ℕ) → length (le_bytes n v) ≡ n
length-le_bytes zero v = refl
length-le_bytes (suc n) v = ap suc (length-le_bytes n (v / 256))

-- A byte of what was stored at the front.
pub get_or-store :
    (buf bs : List ℕ) (i : ℕ)
    → length bs ≤ length buf
    → i < length bs
    → get_or (store buf 0 bs) i 0 ≡ get_or bs i 0
get_or-store [] [] i h p = refl
get_or-store [] (b ∷ bs) i h p = absurd (omega arith)
get_or-store (x ∷ xs) [] i h p = absurd (omega arith)
get_or-store (x ∷ xs) (b ∷ bs) zero h p = refl
get_or-store (x ∷ xs) (b ∷ bs) (suc i) h p = get_or-store xs bs i (omega arith) (omega arith)

pub store-nil : (buf : List ℕ) (off : ℕ) → store buf off [] ≡ buf
store-nil [] off = refl
store-nil (x ∷ xs) zero = refl
store-nil (x ∷ xs) (suc off) = ap (λ r. x ∷ r) (store-nil xs off)

-- A load in two parts.
pub load-add :
    (buf : List ℕ) (off m n : ℕ) → load buf off (m + n) ≡ load buf off m ++ load buf (off + m) n
load-add buf off m n =
    take-add m n (drop off buf) ∙ ap (λ r. load buf off m ++ take n r) (drop-drop m off buf)
  where
    take-add : (m n : ℕ) (xs : List ℕ) → take (m + n) xs ≡ take m xs ++ take n (drop m xs)
    take-add zero n xs = ap (λ (k : ℕ). take k xs) (zero-add n)
    take-add (suc m) n [] = rw (take-nil n, suc-add m n)
    take-add (suc m) n (x ∷ xs) = rw (suc-add m n) (ap (λ r. x ∷ r) (take-add m n xs))
