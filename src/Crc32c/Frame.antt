-- ===== src/Crc32c/Frame.antt =====
-- `nn_crc32c_append` and `nn_crc32c_validate` around any checksum of 32 bits.
use nova_net.Prelude.{
  ℕ, ◌+◌, ◌-◌, ◌^◌, ◌≤◌, ◌<◌, ◌≡◌, ◌≢◌, List, length, ltb, ◌==◌, if◌then◌else◌, ◌↔◌, arith,
}
use nova_net.Wire.{Endian, load, store, le_bytes, nn_read_u32le, nn_write_u32le}
use nova_net.Wire.Order.{write-le_bytes, read_u32-of_le_bytes}
use nova_net.Wire.Buffer.{load-store, load-store_before}
use nova_net.Crc32c.{crc32c_size, nn_crc32c_append, nn_crc32c_validate}

-- A frame that `nn_crc32c_append` makes within its buffer validates to the length of its payload, on
-- every host and for every checksum below 2 ^ 32.
pub validate-append :
    (host : Endian) (crc : List ℕ → ℕ)
    → ((bs : List ℕ) → crc bs < 2 ^ 32)
    → (buf : List ℕ) (n : ℕ) → n + crc32c_size ≤ length buf
    → nn_crc32c_validate host crc
        (nn_crc32c_append host crc buf n).0
        (nn_crc32c_append host crc buf n).1
      ≡ n
unfolding nn_crc32c_append nn_crc32c_validate
validate-append host crc small buf n h =
    let c = crc (load buf 0 n) in
    let wrote : nn_write_u32le host buf n c ≡ store buf n (le_bytes 4 c) =
      (write-le_bytes host buf n 0 c 0 (omega arith) (small (load buf 0 n)) (omega arith)).1 in
    let expected : nn_read_u32le host (store buf n (le_bytes 4 c)) n ≡ c =
      read_u32-of_le_bytes host (store buf n (le_bytes 4 c)) n c (small (load buf 0 n))
        (load-store buf n (le_bytes 4 c) h) in
    let payload : load (store buf n (le_bytes 4 c)) 0 n ≡ load buf 0 n =
      load-store_before buf n (le_bytes 4 c) 0 n (omega arith) in
    rw (wrote, n_minus n, expected, payload) (accepted c n)
  where
    n_minus : (n : ℕ) → n + 4 - 4 ≡ n
    n_minus n = omega arith

    accepted : (c n : ℕ) → (if ltb (n + 4) 4 then 0 else if c == c then n else 0) ≡ n
    accepted c n = ground arith

-- A non-zero result is the length of the payload of a frame whose stored checksum is that of the
-- payload, and such a frame of at least four bytes gives it.
pub validate_iff :
    (host : Endian) (crc : List ℕ → ℕ) (buf : List ℕ) (total_len payload_len : ℕ)
    → payload_len ≢ 0
    → (nn_crc32c_validate host crc buf total_len ≡ payload_len) ↔ (
        (total_len ≡ payload_len + crc32c_size)
        × (crc (load buf 0 payload_len) ≡ nn_read_u32le host buf payload_len))
unfolding nn_crc32c_validate
validate_iff host crc buf total_len payload_len h = (forward, back)
  where
    forward :
        nn_crc32c_validate host crc buf total_len ≡ payload_len
        → (total_len ≡ payload_len + crc32c_size)
          × (crc (load buf 0 payload_len) ≡ nn_read_u32le host buf payload_len)
    forward e = ground arith

    back :
        (total_len ≡ payload_len + crc32c_size)
          × (crc (load buf 0 payload_len) ≡ nn_read_u32le host buf payload_len)
        → nn_crc32c_validate host crc buf total_len ≡ payload_len
    back e = ground arith
