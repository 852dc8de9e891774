-- ===== src/Wire/Bytes.antt =====
-- Lists of bytes that are stored, joined and filled.
use nova_net.Prelude.{
  ◌+◌, ◌*◌, ◌≡◌, ap, ap₂, length, ℕ, zero, suc, ◌/◌, ◌^◌, ◌<◌, List, [], ◌∷◌, ◌++◌, replicate,
  arith,
}
use native.Mathlib.Nat.{pow-suc}
use nova_net.Wire.Order.{write-le_bytes}
use nova_net.Wire.{le_value, Endian, nn_write_u32le, nn_write_u64le, IsBytes, store, le_bytes}

pub IsBytes-store :
    (buf : List ℕ) (off : ℕ) (bs : List ℕ) → IsBytes buf → IsBytes bs → IsBytes (store buf off bs)
IsBytes-store [] off bs h p = tt
IsBytes-store (x ∷ xs) zero [] h p = h
IsBytes-store (x ∷ xs) zero (b ∷ bs) h p = (p.0, IsBytes-store xs zero bs h.1 p.1)
IsBytes-store (x ∷ xs) (suc off) bs h p = (h.0, IsBytes-store xs off bs h.1 p)

pub IsBytes-le_bytes : (n v : ℕ) → IsBytes (le_bytes n v)
IsBytes-le_bytes zero v = tt
IsBytes-le_bytes (suc n) v = (omega arith, IsBytes-le_bytes n (v / 256))

pub IsBytes-append : (xs ys : List ℕ) → IsBytes xs → IsBytes ys → IsBytes (xs ++ ys)
IsBytes-append [] ys g h = h
IsBytes-append (x ∷ xs) ys g h = (g.0, IsBytes-append xs ys g.1 h)

pub IsBytes-replicate : (n : ℕ) → IsBytes (replicate n 0)
IsBytes-replicate zero = tt
IsBytes-replicate (suc n) = (omega arith, IsBytes-replicate n)

pub write_u32-le_bytes :
    (host : Endian) (buf : List ℕ) (off v : ℕ)
    → v < 2 ^ 32
    → nn_write_u32le host buf off v ≡ store buf off (le_bytes 4 v)
write_u32-le_bytes host buf off v h =
    (write-le_bytes host buf off 0 v 0 (omega arith) h (omega arith)).1

pub write_u64-le_bytes :
    (host : Endian) (buf : List ℕ) (off v : ℕ)
    → v < 2 ^ 64
    → nn_write_u64le host buf off v ≡ store buf off (le_bytes 8 v)
write_u64-le_bytes host buf off v h =
    (write-le_bytes host buf off 0 0 v (omega arith) (omega arith) h).2

-- The bytes of a word and of what stands above it.
pub le_bytes-word :
    (n w v x : ℕ)
    → w < 2 ^ 32
    → x ≡ w + v * 2 ^ 32
    → le_bytes (suc (suc (suc (suc n)))) x ≡ le_bytes 4 w ++ le_bytes n v
le_bytes-word n w v x h e =
    ap₂ (λ b bs. b ∷ bs) (omega arith)
      (ap₂ (λ b bs. b ∷ bs) (omega arith)
        (ap₂ (λ b bs. b ∷ bs) (omega arith)
          (ap₂ (λ b bs. b ∷ bs) (omega arith) (ap (le_bytes n) (omega arith)))))

pub le_value-lt : (bs : List ℕ) → IsBytes bs → le_value bs < 256 ^ length bs
le_value-lt [] h = omega arith
le_value-lt (b ∷ bs) h = omega (arith, le_value-lt bs h.1, pow-suc 256 (length bs))
