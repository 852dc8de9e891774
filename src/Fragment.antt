-- ===== src/Fragment.antt =====
-- cbits/nn_fragment.c: fragment headers, the number of fragments of a message, and one fragment.
pub mod Header
pub mod Build
pub mod Reassembly
pub mod Tests
use nova_net.Prelude.{
  ℕ, ◌+◌, ◌-◌, ◌*◌, ◌/◌, ◌^◌, List, [], ◌∷◌, ◌++◌, get_or, set, take, drop, Bool, true, false, ◌||◌,
  Option, none, some, ltb, leb, ◌==◌, if◌then◌else◌, u32, u64,
}
use nova_net.Wire.{Endian, store, load, nn_write_u32le, nn_read_u32le}

-- `NN_FRAGMENT_HEADER_SIZE` and `NN_MAX_FRAGMENT_COUNT`
abbrev pub fragment_header_size : ℕ
fragment_header_size = 6

abbrev pub max_fragment_count : ℕ
max_fragment_count = 255

pub record FragmentHeader : Type 0 where
  pub message_id : ℕ
  pub fragment_index : ℕ
  pub fragment_count : ℕ

-- The test that both directions make.
abbrev pub is_bad : FragmentHeader → Bool
is_bad hdr = hdr.fragment_count == 0 || leb hdr.fragment_count hdr.fragment_index

-- `none` is the -1 of the code, which writes nothing; else the returned length and the buffer.
pub nn_fragment_write : Endian → FragmentHeader → List ℕ → Option (ℕ × List ℕ)
nn_fragment_write host hdr buf =
    if is_bad hdr
    then none
    else some (
      fragment_header_size,
      set (set (nn_write_u32le host buf 0 hdr.message_id) 4 hdr.fragment_index) 5
          hdr.fragment_count,
    )

-- Success, and `*out`, which a refused header overwrites too.
pub nn_fragment_read : Endian → List ℕ → ℕ → FragmentHeader → Bool × FragmentHeader
nn_fragment_read host buf buf_len out =
    let hdr : FragmentHeader = record {
      message_id = nn_read_u32le host buf 0;
      fragment_index = get_or buf 4 0;
      fragment_count = get_or buf 5 0;
    } in
    if ltb buf_len fragment_header_size
    then (false, out)
    else if is_bad hdr
    then (false, hdr)
    else (true, hdr)

-- The sums are of `size_t`; `none` is -1.
pub nn_fragment_count : ℕ → ℕ → Option ℕ
nn_fragment_count msg_len max_payload =
    let count = u64 (u64 (msg_len + max_payload) + 2 ^ 64 - 1) / max_payload in
    if msg_len == 0
    then some 0
    else if max_payload == 0
    then none
    else if ltb max_fragment_count count
    then none
    else some count

-- The payload of a fragment that begins at `offset`.
abbrev pub payload_len_at : ℕ → ℕ → ℕ → ℕ
payload_len_at msg_len max_payload offset =
    if ltb max_payload (msg_len - offset) then max_payload else msg_len - offset

-- `memcpy` of the payload behind the header. The result of `nn_fragment_write` is not looked at: a
-- refused header leaves the first six bytes of the buffer as they were.
pub build_into : Endian → FragmentHeader → List ℕ → List ℕ → List ℕ
build_into host hdr payload out_buf =
    let headed = elim (nn_fragment_write host hdr out_buf) as (λ _. List ℕ) [
      | none ↦ out_buf
      | some (n, buf) ↦ buf
    ] in
    store headed fragment_header_size payload

-- `none` is -1; else the returned length, as the bit pattern of an `int`, and the buffer.
pub nn_fragment_build :
    Endian
    → List ℕ
    → (msg_len message_id frag_index frag_count max_payload : ℕ) → List ℕ
    → Option (ℕ × List ℕ)
nn_fragment_build host msg msg_len message_id frag_index frag_count max_payload out_buf =
    let offset = u64 (frag_index * max_payload) in
    let payload_len = payload_len_at msg_len max_payload offset in
    let hdr : FragmentHeader = record {
      message_id = message_id;
      fragment_index = frag_index;
      fragment_count = frag_count;
    } in
    if leb frag_count frag_index
    then none
    else if ltb msg_len offset
    then none
    else some (
      u32 (fragment_header_size + payload_len),
      build_into host hdr (load msg offset payload_len) out_buf,
    )
