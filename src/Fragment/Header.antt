-- ===== src/Fragment/Header.antt =====
-- The round trip of a fragment header, on every host.
use nova_net.Prelude.{
  ℕ, ◌^◌, ◌≤◌, ◌<◌, ◌≡◌, refl, List, [], ◌∷◌, ◌++◌, length, true, false, some, arith,
}
use nova_net.Wire.{Endian, store, load, le_bytes, le_value, IsBytes, nn_write_u32le}
use nova_net.Wire.Buffer.{store-nil}
use nova_net.Wire.Order.{write-le_bytes, read_u32-le_value}
use nova_net.Fragment.{
  FragmentHeader, fragment_header_size, nn_fragment_write, nn_fragment_read, is_bad,
}

-- The values that the fields can hold, and an index below the count.
pub record IsHeader (h : FragmentHeader) : Type 0 where
  pub id_fits : h.message_id < 2 ^ 32
  pub index_in : h.fragment_index < h.fragment_count
  pub count_fits : h.fragment_count < 256

-- The six bytes of a header.
abbrev pub header_bytes : FragmentHeader → List ℕ
header_bytes h = le_bytes 4 h.message_id ++ (h.fragment_index ∷ h.fragment_count ∷ [])

write_u32-le_bytes :
    (host : Endian) (buf : List ℕ) (off v : ℕ)
    → v < 2 ^ 32
    → nn_write_u32le host buf off v ≡ store buf off (le_bytes 4 v)
write_u32-le_bytes host buf off v h =
    (write-le_bytes host buf off 0 v 0 (omega arith) h (omega arith)).1

pub good : (h : FragmentHeader) → IsHeader h → is_bad h ≡ false
good h v = ground arith

-- Writing stores the six bytes at the front.
pub fragment_write-store :
    (host : Endian) (h : FragmentHeader) (buf : List ℕ)
    → IsHeader h
    → fragment_header_size ≤ length buf
    → nn_fragment_write host h buf ≡ some (fragment_header_size, store buf 0 (header_bytes h))
unfolding nn_fragment_write
fragment_write-store host h (b0 ∷ b1 ∷ b2 ∷ b3 ∷ b4 ∷ b5 ∷ rest) v p =
    rw
      (
        good h v,
        write_u32-le_bytes host (b0 ∷ b1 ∷ b2 ∷ b3 ∷ b4 ∷ b5 ∷ rest) 0 h.message_id v.id_fits,
        store-nil rest 0,
      )
      refl
fragment_write-store host h _ v p = absurd (omega arith)

-- The value of the four bytes of a number.
le_value-le_bytes : (v : ℕ) → v < 2 ^ 32 → le_value (le_bytes 4 v) ≡ v
le_value-le_bytes v h = omega arith

IsBytes-header_bytes : (h : FragmentHeader) → IsHeader h → IsBytes (header_bytes h)
IsBytes-header_bytes h v = omega arith

fields :
    (b0 b1 b2 b3 b4 b5 : ℕ) (h : FragmentHeader)
    → IsHeader h
    → b0 ∷ b1 ∷ b2 ∷ b3 ∷ b4 ∷ b5 ∷ [] ≡ header_bytes h
    → (le_value (b0 ∷ b1 ∷ b2 ∷ b3 ∷ []) ≡ h.message_id)
      × (b4 ≡ h.fragment_index)
      × (b5 ≡ h.fragment_count)
fields b0 b1 b2 b3 b4 b5 h v e = ground arith

-- Six bytes at the front of a buffer that spell a header are read as that header.
pub read-header_bytes :
    (host : Endian) (h out : FragmentHeader) (buf : List ℕ) (n : ℕ)
    → IsHeader h
    → IsBytes buf
    → fragment_header_size ≤ length buf
    → fragment_header_size ≤ n
    → load buf 0 6 ≡ header_bytes h
    → nn_fragment_read host buf n out ≡ (true, h)
unfolding nn_fragment_read
read-header_bytes host h out (b0 ∷ b1 ∷ b2 ∷ b3 ∷ b4 ∷ b5 ∷ rest) n v b p q e =
    let word = read_u32-le_value host (b0 ∷ b1 ∷ b2 ∷ b3 ∷ b4 ∷ b5 ∷ rest) b 0 (omega arith) in
    let (s, i, c) = fields b0 b1 b2 b3 b4 b5 h v e in rw (word, s, i, c) (ground arith)
read-header_bytes host h out _ n v b p q e = absurd (omega arith)
