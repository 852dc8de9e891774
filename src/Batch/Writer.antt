-- ===== src/Batch/Writer.antt =====
-- What a writer has in its buffer.
use nova_net.Prelude.{
  ℕ, ◌+◌, ◌^◌, ◌≤◌, ◌<◌, ◌≡◌, refl, sym, ap, ◌∙◌, List, [], ◌∷◌, ◌++◌, length, none, some, arith,
  length-append, append_assoc, append-nil, ap₂, ◌↔◌, ◌⊎◌,
}
use nova_net.Wire.{Endian, store, load, le_bytes}
use nova_net.Wire.Buffer.{length-store, load-store, load-store_before, load-add}
use nova_net.Wire.Order.{write-le_bytes}
use nova_net.Batch.{BatchWriter, nn_batch_writer_init, nn_batch_writer_add}

-- The bytes of one message, and of messages in order.
abbrev pub frame : List ℕ → List ℕ
frame msg = le_bytes 2 (length msg) ++ msg

abbrev pub frames : List (List ℕ) → List ℕ
frames [] = []
frames (msg ∷ msgs) = frame msg ++ frames msgs

pub frames-append : (xs ys : List (List ℕ)) → frames (xs ++ ys) ≡ frames xs ++ frames ys
frames-append [] ys = refl
frames-append (x ∷ xs) ys =
    ap (λ r. frame x ++ r) (frames-append xs ys) ∙ sym (append_assoc (frame x) _ _)

-- The writer holds the messages: their frames stand behind the count's byte, and the offset is just
-- behind them, within the capacity and the buffer.
pub record Holds (w : BatchWriter) (msgs : List (List ℕ)) : Type 0 where
  pub within : w.offset ≤ w.capacity
  pub fits : w.capacity ≤ length w.buf
  pub object : length w.buf < 2 ^ 63
  pub counted : w.count ≡ length msgs
  pub few : w.count ≤ 255
  pub written : w.offset ≡ 1 + length (frames msgs)
  pub bytes : load w.buf 1 (length (frames msgs)) ≡ frames msgs

pub init-Holds :
    (buf : List ℕ) (capacity : ℕ)
    → 1 ≤ capacity
    → capacity ≤ length buf
    → length buf < 2 ^ 63
    → Holds (nn_batch_writer_init buf capacity) []
unfolding nn_batch_writer_init
init-Holds buf capacity p q r = record {
  within = p;
  fits = q;
  object = r;
  counted = refl;
  few = omega arith;
  written = omega arith;
  bytes = refl;
}

-- The buffer and the offset of a writer that accepts a message, the sums being whole.
pub add-writes :
    (host : Endian) {w : BatchWriter} (msg : List ℕ) {msgs : List (List ℕ)} {w' : BatchWriter}
    → Holds w msgs
    → nn_batch_writer_add host w msg ≡ some w'
    → (w.offset + (2 + length msg) ≤ w.capacity)
      × (length msg < 2 ^ 16)
      × (w.count < 255)
      × (w'.capacity ≡ w.capacity)
      × (w'.offset ≡ w.offset + (2 + length msg))
      × (w'.count ≡ w.count + 1)
      × (w'.buf ≡ store (store w.buf w.offset (le_bytes 2 (length msg))) (w.offset + 2) msg)
unfolding nn_batch_writer_add
add-writes host {w} msg h e =
    ground
      (arith, h.within, h.fits, h.object, (write-le_bytes host w.buf w.offset (length msg) 0 0))

-- The bytes of a buffer into which a frame was stored behind `l` bytes of frames.
frame_stored :
    (buf msg : List ℕ) (l : ℕ)
    → 1 + l + (2 + length msg) ≤ length buf
    → load
        (store (store buf (1 + l) (le_bytes 2 (length msg))) (1 + l + 2) msg)
        1
        (l + (2 + length msg))
      ≡ load buf 1 l ++ frame msg
frame_stored buf msg l h =
    let head = le_bytes 2 (length msg) in
    let buf1 = store buf (1 + l) head in
    let buf2 = store buf1 (1 + l + 2) msg in
    let size : length buf1 ≡ length buf = length-store buf (1 + l) head in
    load-add buf2 1 l (2 + length msg)
    ∙ ap₂ ◌++◌
        (load-store_before buf1 (1 + l + 2) msg 1 l (omega arith)
          ∙ load-store_before buf (1 + l) head 1 l (omega arith))
        (load-add buf2 (1 + l) 2 (length msg)
          ∙ ap₂ ◌++◌
              (load-store_before buf1 (1 + l + 2) msg (1 + l) 2 (omega arith)
                ∙ load-store buf (1 + l) head (omega arith))
              (load-store buf1 (1 + l + 2) msg (omega arith)))

length-frames_snoc :
    (msgs : List (List ℕ)) (msg : List ℕ)
    → length (frames (msgs ++ (msg ∷ []))) ≡ length (frames msgs) + (2 + length msg)
length-frames_snoc msgs msg =
    ap length (frames-append msgs (msg ∷ []))
    ∙ omega (
      arith,
      length-append (frames msgs) (frames (msg ∷ [])),
      length-append (frame msg) [],
      length-append (le_bytes 2 (length msg)) msg,
    )

-- A message that is accepted stands behind the others: the writer stays within its capacity and
-- holds the messages in the order of the calls.
pub add-Holds :
    (host : Endian) (w : BatchWriter) (msg : List ℕ) (msgs : List (List ℕ)) (w' : BatchWriter)
    → Holds w msgs
    → nn_batch_writer_add host w msg ≡ some w'
    → Holds w' (msgs ++ (msg ∷ []))
add-Holds host w msg msgs w' h e =
    let (room, short, few, cap, off, cnt, stored) = add-writes host msg h e in
    let l = length (frames msgs) in
    let size : length w'.buf ≡ length w.buf =
      ap length stored ∙ length-store _ _ _ ∙ length-store _ _ _ in
    record {
      within = omega arith;
      fits = omega (arith, h.fits);
      object = omega (arith, h.object);
      counted = omega (arith, h.counted, length-append msgs (msg ∷ []));
      few = omega arith;
      written = omega (arith, h.written, length-frames_snoc msgs msg);
      bytes =
          rw (stored, h.written, length-frames_snoc msgs msg)
            (frame_stored w.buf msg l (omega (arith, h.written, h.fits))
              ∙ rw h.bytes (
                  sym (
                    frames-append msgs (msg ∷ [])
                    ∙ ap (λ r. frames msgs ++ r) (append-nil (frame msg)))));
    }

-- A message shorter than 2^63 bytes is refused exactly when the batch is full, its length does not
-- fit 16 bits, or the buffer has no room for it.
pub add-none_iff :
    (host : Endian) (w : BatchWriter) (msg : List ℕ) (msgs : List (List ℕ))
    → Holds w msgs
    → length msg < 2 ^ 63
    → (nn_batch_writer_add host w msg ≡ none)
      ↔ ((255 ≤ w.count) ⊎ (65535 < length msg) ⊎ (w.capacity < w.offset + 2 + length msg))
unfolding nn_batch_writer_add
add-none_iff host w msg msgs h p = (
  λ e. ground (arith, h.within, h.fits, h.object),
  λ c. ground (arith, h.within, h.fits, h.object),
)
