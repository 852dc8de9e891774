-- ===== src/Batch/Reader.antt =====
-- What a reader takes out of its buffer.
use nova_net.Prelude.{
  ℕ, ◌+◌, ◌^◌, ◌≤◌, ◌<◌, ◌≡◌, ◌⊎◌, refl, sym, ap, ◌∙◌, List, [], ◌∷◌, ◌++◌, length, get_or, Option,
  none, some, arith, length-append, append_assoc, append_inj, true, false, u8, u64, ltb, leb,
  Bool-cases, inl, inr,
}
use nova_net.Wire.{Endian, load, le_bytes, IsBytes, nn_read_u16le}
use nova_net.Wire.Buffer.{load-add}
use nova_net.Wire.Order.{read_u16-of_le_bytes, read_u16-lt, length-load}
use nova_net.Batch.{BatchReader, nn_batch_reader_next}
use nova_net.Batch.Writer.{frame, frames}

abbrev pub AllShort : List (List ℕ) → Type 0
AllShort [] = Unit
AllShort (msg ∷ msgs) = (length msg < 2 ^ 16) × AllShort msgs

-- The frames of the messages stand at the reader's offset, within the packet, and are the messages
-- that it has yet to read.
pub record Pending (r : BatchReader) (msgs : List (List ℕ)) : Type 0 where
  pub within : r.offset + length (frames msgs) ≤ r.buf_len
  pub fits : r.buf_len ≤ length r.buf
  pub object : length r.buf < 2 ^ 63
  pub counted : r.count ≡ r.read + length msgs
  pub few : r.count ≤ 255
  pub short : AllShort msgs
  pub bytes : load r.buf r.offset (length (frames msgs)) ≡ frames msgs

-- A reader keeps to its packet.
pub record IsSafe (r : BatchReader) : Type 0 where
  pub within : r.offset ≤ r.buf_len
  pub fits : r.buf_len ≤ length r.buf
  pub object : length r.buf < 2 ^ 63
  pub count_byte : r.count ≡ get_or r.buf 0 0
  pub few : r.count ≤ 255
  pub counted : r.read ≤ r.count

-- What a call of a safe reader does, by the length `n` that stands at its offset.
next-cases :
    (host : Endian) (r : BatchReader)
    → IsBytes r.buf
    → IsSafe r
    → let n = nn_read_u16le host r.buf r.offset in
      (nn_batch_reader_next host r ≡ (r, none))
      ⊎ ((r.offset + 2 ≤ r.buf_len)
          × (nn_batch_reader_next host r ≡ (record r { offset = r.offset + 2 }, none)))
      ⊎ ((r.offset + 2 + n ≤ r.buf_len)
          × (r.read < r.count)
          × (nn_batch_reader_next host r ≡ (
            record r { offset = r.offset + 2 + n; read = r.read + 1 },
            some (load r.buf (r.offset + 2) n),
          )))
unfolding nn_batch_reader_next
next-cases host r b v =
    let n = nn_read_u16le host r.buf r.offset in
    let start : u64 (r.offset + 2) ≡ r.offset + 2 = omega (arith, v.within, v.fits, v.object) in
    elim (Bool-cases (leb r.count r.read)) [
      | inl done ↦ inl (rw done)
      | inr more ↦ elim (Bool-cases (ltb r.buf_len (r.offset + 2))) [
        | inl cut ↦ inl (rw (more, start, cut))
        | inr whole ↦
            let inside : r.offset + 2 ≤ r.buf_len = ground arith in
            let short : n < 2 ^ 16 = read_u16-lt host r.buf r.offset b (omega (arith, v.fits)) in
            let end : u64 (r.offset + 2 + n) ≡ r.offset + 2 + n = omega (arith, v.fits, v.object) in
            elim (Bool-cases (ltb r.buf_len (r.offset + 2 + n))) [
              | inl cut ↦ inr (inl (inside, rw (more, start, whole, end, cut)))
              | inr fits ↦
                  (let count : u8 (r.read + 1) ≡ r.read + 1 = ground (arith, v.few) in
                    inr
                      (inr (ground arith, ground arith, rw (more, start, whole, end, fits, count))))
            ]
      ]
    ]

-- A step that keeps to the packet, and whose message, if it gives one, is the part of the packet
-- between the two offsets, behind its length.
abbrev pub SafeStep : BatchReader → BatchReader × Option (List ℕ) → Type 0
SafeStep r (r', out) =
    IsSafe r'
    × (r'.buf ≡ r.buf)
    × (r'.buf_len ≡ r.buf_len)
    × (r'.count ≡ r.count)
    × (r.offset ≤ r'.offset)
    × (((out ≡ none) × (r'.read ≡ r.read))
        ⊎ ((msg : List ℕ) × (out ≡ some msg)
            × (r'.read ≡ r.read + 1)
            × (r'.offset ≡ r.offset + 2 + length msg)
            × (msg ≡ load r.buf (r.offset + 2) (length msg))))

-- On any packet of bytes, also one that no writer made, take a reader that keeps to its packet: the
-- packet is within a buffer of less than 2^63 bytes, the offset is within the packet, the count is
-- the packet's count byte, and no more messages have been read than that. Its next call leaves a
-- reader that keeps to the same packet, with the same count. Either it gives no message and has read
-- as many as before, or it gives the part of the packet between the two offsets, behind its length,
-- and has read one more.
pub next-SafeStep :
    (host : Endian) (r : BatchReader)
    → IsBytes r.buf
    → IsSafe r
    → SafeStep r (nn_batch_reader_next host r)
next-SafeStep host r b v = go (next-cases host r b v)
  where
    n : ℕ
    n = nn_read_u16le host r.buf r.offset

    go :
        (nn_batch_reader_next host r ≡ (r, none))
          ⊎ ((r.offset + 2 ≤ r.buf_len)
              × (nn_batch_reader_next host r ≡ (record r { offset = r.offset + 2 }, none)))
          ⊎ ((r.offset + 2 + n ≤ r.buf_len)
              × (r.read < r.count)
              × (nn_batch_reader_next host r ≡ (
                record r { offset = r.offset + 2 + n; read = r.read + 1 },
                some (load r.buf (r.offset + 2) n),
              )))
        → SafeStep r (nn_batch_reader_next host r)
    go (inl e) = rw e (v, refl, refl, refl, omega arith, inl (refl, refl))
    go (inr (inl (p, e))) = rw e (
      record {
        within = p;
        fits = v.fits;
        object = v.object;
        count_byte = v.count_byte;
        few = v.few;
        counted = v.counted;
      },
      refl,
      refl,
      refl,
      omega arith,
      inl (refl, refl),
    )
    go (inr (inr (p, q, e))) =
        let size : length (load r.buf (r.offset + 2) n) ≡ n =
          length-load r.buf (r.offset + 2) n (omega (arith, v.fits)) in
        rw e (
          record {
            within = p;
            fits = v.fits;
            object = v.object;
            count_byte = v.count_byte;
            few = v.few;
            counted = omega arith;
          },
          refl,
          refl,
          refl,
          omega arith,
          inr (
            load r.buf (r.offset + 2) n,
            refl,
            refl,
            omega arith,
            ap (λ (k : ℕ). load r.buf (r.offset + 2) k) (sym size),
          ),
        )

-- The bytes at the offset, when a frame and others stand there.
pending_bytes :
    (buf msg : List ℕ) (msgs : List (List ℕ)) (off : ℕ)
    → off + length (frames (msg ∷ msgs)) ≤ length buf
    → load buf off (length (frames (msg ∷ msgs))) ≡ frames (msg ∷ msgs)
    → (load buf off 2 ≡ le_bytes 2 (length msg))
      × (load buf (off + 2) (length msg) ≡ msg)
      × (load buf (off + 2 + length msg) (length (frames msgs)) ≡ frames msgs)
pending_bytes buf msg msgs off h e =
    let l = length (frames msgs) in
    let size : length (frames (msg ∷ msgs)) ≡ 2 + (length msg + l) =
      ap length (append_assoc (le_bytes 2 (length msg)) msg (frames msgs))
      ∙ omega (arith, length-append msg (frames msgs)) in
    let parts =
      sym (load-add buf off 2 (length msg + l))
      ∙ ap (λ (k : ℕ). load buf off k) (sym size)
      ∙ e
      ∙ append_assoc (le_bytes 2 (length msg)) msg (frames msgs) in
    let (head, tail) =
      append_inj (load buf off 2) (load buf (off + 2) (length msg + l)) (le_bytes 2 (length msg))
        (msg ++ frames msgs) (length-load buf off 2 (omega arith)) parts in
    let (body, rest) =
      append_inj (load buf (off + 2) (length msg)) (load buf (off + 2 + length msg) l) msg
        (frames msgs) (length-load buf (off + 2) (length msg) (omega arith))
        (sym (load-add buf (off + 2) (length msg) l) ∙ tail) in
    (head, body, rest)

-- A reader with a message pending gives it, and has the others pending.
pub next-Pending :
    (host : Endian) (r : BatchReader) (msg : List ℕ) (msgs : List (List ℕ))
    → Pending r (msg ∷ msgs)
    → (r' : BatchReader) × (nn_batch_reader_next host r ≡ (r', some msg)) × Pending r' msgs
unfolding nn_batch_reader_next
next-Pending host r msg msgs v =
    let l = length (frames msgs) in
    let size : length (frames (msg ∷ msgs)) ≡ 2 + length msg + l =
      omega (arith, length-append (frame msg) (frames msgs)) in
    let (head, body, rest) =
      pending_bytes r.buf msg msgs r.offset (omega (arith, v.within, v.fits)) v.bytes in
    let word = read_u16-of_le_bytes host r.buf r.offset (length msg) v.short.0 head in
    let start : u64 (r.offset + 2) ≡ r.offset + 2 = omega (arith, v.within, v.fits, v.object) in
    let end : u64 (r.offset + 2 + length msg) ≡ r.offset + 2 + length msg =
      omega (arith, v.within, v.fits, v.object) in
    let more : leb r.count r.read ≡ false = ground (arith, v.counted) in
    let whole : ltb r.buf_len (r.offset + 2) ≡ false = ground (arith, v.within) in
    let fits : ltb r.buf_len (r.offset + 2 + length msg) ≡ false = ground (arith, v.within) in
    let count : u8 (r.read + 1) ≡ r.read + 1 = omega (arith, v.counted, v.few) in
    (
      record r { offset = r.offset + 2 + length msg; read = r.read + 1 },
      rw (word, start, more, whole, end, fits, count, body) refl,
      record {
        within = omega (arith, v.within);
        fits = v.fits;
        object = v.object;
        counted = omega (arith, v.counted);
        few = v.few;
        short = v.short.1;
        bytes = rest;
      },
    )

pub next-Pending_nil :
    (host : Endian) (r : BatchReader) → Pending r [] → nn_batch_reader_next host r ≡ (r, none)
unfolding nn_batch_reader_next
next-Pending_nil host r v =
    let done : leb r.count r.read ≡ true = ground (arith, v.counted) in rw done
