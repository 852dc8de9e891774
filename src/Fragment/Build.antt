-- ===== src/Fragment/Build.antt =====
-- One fragment: its header and its slice of the message.
use nova_net.Prelude.{
  ℕ, ◌+◌, ◌-◌, ◌*◌, ◌^◌, ◌≤◌, ◌<◌, ◌≡◌, refl, ap, ◌∙◌, List, length, false, some, arith, ltb, min,
  u32, u64, leb, sym,
}
use nova_net.Wire.{Endian, store, load}
use nova_net.Wire.Buffer.{length-store, load-store, load-store_before}
use nova_net.Wire.Order.{length-load}
use nova_net.Fragment.{FragmentHeader, nn_fragment_build, payload_len_at, build_into}
use nova_net.Fragment.Header.{IsHeader, header_bytes, fragment_write-store}

length-header_bytes : (h : FragmentHeader) → length (header_bytes h) ≡ 6
length-header_bytes h = refl

build_into-store :
    (host : Endian) (h : FragmentHeader) (payload buf : List ℕ)
    → IsHeader h
    → 6 ≤ length buf
    → build_into host h payload buf ≡ store (store buf 0 (header_bytes h)) 6 payload
unfolding build_into
build_into-store host h payload buf v p = rw (fragment_write-store host h buf v p)

module _ (host : Endian) (msg : List ℕ) (id i c max_payload : ℕ) (out_buf : List ℕ) where
  abbrev pub header : FragmentHeader
  header = record { message_id = id; fragment_index = i; fragment_count = c }

  -- The number of bytes of the slice.
  abbrev pub slice_len : ℕ
  slice_len = min max_payload (length msg - i * max_payload)

  -- A buffer with the header at its front and the slice behind it.
  abbrev pub built : List ℕ
  built = store (store out_buf 0 (header_bytes header)) 6 (load msg (i * max_payload) slice_len)

  build-built :
      IsHeader header
      → i * max_payload ≤ length msg
      → length msg < 2 ^ 31 - 6
      → 6 + max_payload ≤ length out_buf
      → nn_fragment_build host msg (length msg) id i c max_payload out_buf
        ≡ some (6 + slice_len, built)
  unfolding nn_fragment_build
  build-built v p q r =
      let whole : u64 (i * max_payload) ≡ i * max_payload = omega arith in
      let below : leb c i ≡ false = ground arith in
      let inside : ltb (length msg) (i * max_payload) ≡ false = ground arith in
      let len : payload_len_at (length msg) max_payload (i * max_payload) ≡ slice_len =
        ground arith in
      let small : u32 (6 + slice_len) ≡ 6 + slice_len = omega arith in
      let stored =
        build_into-store host header (load msg (i * max_payload) slice_len) out_buf v
          (omega arith) in
      rw (whole, below, inside, len, small, stored) refl

  length-slice :
      i * max_payload ≤ length msg → length (load msg (i * max_payload) slice_len) ≡ slice_len
  length-slice p = length-load msg (i * max_payload) slice_len (omega arith)

  -- A fragment within the message is built: its length is that of the header and the slice, the six
  -- bytes at the front are the header's, and behind them stand the bytes of the slice.
  pub fragment_build_lem :
      IsHeader header
      → i * max_payload ≤ length msg
      → length msg < 2 ^ 31 - 6
      → 6 + max_payload ≤ length out_buf
      → (out : List ℕ) × (nn_fragment_build host msg (length msg) id i c max_payload out_buf
          ≡ some (6 + slice_len, out))
        × (length out ≡ length out_buf)
        × (load out 0 6 ≡ header_bytes header)
        × (load out 6 slice_len ≡ load msg (i * max_payload) slice_len)
  fragment_build_lem v p q r =
      let slice = load msg (i * max_payload) slice_len in
      let headed = store out_buf 0 (header_bytes header) in
      let same : length headed ≡ length out_buf = length-store out_buf 0 (header_bytes header) in
      (
        built,
        build-built v p q r,
        length-store headed 6 slice ∙ same,
        load-store_before headed 6 slice 0 6 (omega arith)
            ∙ load-store out_buf 0 (header_bytes header) (omega arith),
        ap (λ (k : ℕ). load built 6 k) (sym (length-slice p))
            ∙ load-store headed 6 slice (omega (arith, length-slice p)),
      )
