-- ===== src/Batch.antt =====
-- cbits/nn_batch.c: several messages in one packet, each behind its length.
pub mod Writer
pub mod Reader
pub mod Roundtrip
pub mod Tests
use nova_net.Prelude.{
  ℕ, ◌+◌, ◌^◌, List, [], ◌∷◌, length, get_or, set, Bool, true, false, Option, none, some, ltb, leb,
  ◌==◌, if◌then◌else◌, u8, u16, u64,
}
use nova_net.Wire.{Endian, store, load, nn_write_u16le, nn_read_u16le}

-- `NN_BATCH_HEADER_SIZE`, `NN_BATCH_LENGTH_SIZE`, `NN_BATCH_MAX_MESSAGES` and `UINT16_MAX`
abbrev pub batch_header_size : ℕ
batch_header_size = 1

abbrev pub batch_length_size : ℕ
batch_length_size = 2

abbrev pub batch_max_messages : ℕ
batch_max_messages = 255

abbrev pub uint16_max : ℕ
uint16_max = 65535

pub record BatchWriter : Type 0 where
  pub buf : List ℕ
  pub capacity : ℕ
  pub offset : ℕ
  pub count : ℕ

pub nn_batch_writer_init : List ℕ → ℕ → BatchWriter
nn_batch_writer_init buf capacity = record {
  buf = buf;
  capacity = capacity;
  offset = batch_header_size;
  count = 0;
}

-- `none` is -1, which changes nothing. The sums are of `size_t`.
pub nn_batch_writer_add : Endian → BatchWriter → List ℕ → Option BatchWriter
nn_batch_writer_add host w msg =
    let msg_len = length msg in
    let needed = u64 (batch_length_size + msg_len) in
    let behind = u64 (w.offset + batch_length_size) in
    if leb batch_max_messages w.count
    then none
    else if ltb uint16_max msg_len
    then none
    else if ltb w.capacity (u64 (w.offset + needed))
    then none
    else some (record w {
      buf = store (nn_write_u16le host w.buf w.offset (u16 msg_len)) behind msg;
      offset = u64 (behind + msg_len);
      count = u8 (w.count + 1);
    })

-- The returned size, and the buffer.
pub nn_batch_writer_finish : BatchWriter → ℕ × List ℕ
nn_batch_writer_finish w = if w.count == 0 then (0, w.buf) else (w.offset, set w.buf 0 w.count)

pub record BatchReader : Type 0 where
  pub buf : List ℕ
  pub buf_len : ℕ
  pub offset : ℕ
  pub count : ℕ
  pub read : ℕ

-- `none` is -1.
pub nn_batch_reader_init : List ℕ → ℕ → Option BatchReader
nn_batch_reader_init buf buf_len =
    if ltb buf_len batch_header_size
    then none
    else some (record {
      buf = buf;
      buf_len = buf_len;
      offset = batch_header_size;
      count = get_or buf 0 0;
      read = 0;
    })

-- The reader after the call and the message; `none` is -1. A message that is cut short leaves the
-- offset behind its length.
pub nn_batch_reader_next : Endian → BatchReader → BatchReader × Option (List ℕ)
nn_batch_reader_next host r =
    let msg_len = nn_read_u16le host r.buf r.offset in
    let start = u64 (r.offset + batch_length_size) in
    if leb r.count r.read
    then (r, none)
    else if ltb r.buf_len start
    then (r, none)
    else if ltb r.buf_len (u64 (start + msg_len))
    then (record r { offset = start }, none)
    else (
      record r { offset = u64 (start + msg_len); read = u8 (r.read + 1) },
      some (load r.buf start msg_len),
    )
