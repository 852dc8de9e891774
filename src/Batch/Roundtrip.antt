-- ===== src/Batch/Roundtrip.antt =====
-- A batch that is written and read again.
use nova_net.Prelude.{
  ℕ, zero, suc, ◌^◌, ◌≤◌, ◌<◌, ◌≡◌, ◌≢◌, refl, sym, ap, ◌∙◌, List, [], ◌∷◌, ◌++◌, length, get_or,
  set, ◌==◌, ltb, false, Option, none, some, arith, append_assoc, append-nil, Option-cases, inl,
  inr, length-set, subst,
}
use nova_net.Wire.{Endian, load}
use nova_net.Batch.{
  BatchWriter, BatchReader, nn_batch_writer_init, nn_batch_writer_add, nn_batch_writer_finish,
  nn_batch_reader_init, nn_batch_reader_next,
}
use nova_net.Batch.Writer.{Holds, frames, init-Holds, add-Holds, add-writes}
use nova_net.Batch.Reader.{Pending, AllShort, next-Pending, next-Pending_nil}

-- The messages appended in order; `none` if one of them is refused.
unfoldable pub add_all : Endian → BatchWriter → List (List ℕ) → Option BatchWriter
add_all host w [] = some w
add_all host w (msg ∷ msgs) = elim (nn_batch_writer_add host w msg) as (λ _. Option BatchWriter) [
  | none ↦ none
  | some w' ↦ add_all host w' msgs
]

-- One more message in front of those behind it.
abbrev pub prepend : Option (List ℕ) → List (List ℕ) → List (List ℕ)
prepend none rest = []
prepend (some msg) rest = msg ∷ rest

-- The messages that a client reads until the first refusal, in at most `n` calls.
pub read_all : Endian → ℕ → BatchReader → List (List ℕ)
read_all host zero r = []
read_all host (suc n) r =
    let (r', out) = nn_batch_reader_next host r in let rest = read_all host n r' in prepend out rest

pub read_all-Pending :
    (host : Endian) (n : ℕ) (r : BatchReader) (msgs : List (List ℕ))
    → length msgs < n
    → Pending r msgs
    → read_all host n r ≡ msgs
unfolding read_all
read_all-Pending host zero r msgs h v = absurd (omega arith)
read_all-Pending host (suc n) r [] h v = rw (next-Pending_nil host r v)
read_all-Pending host (suc n) r (msg ∷ msgs) h v =
    let (r', e, pending) = next-Pending host r msg msgs v in
    rw e (ap (λ rest. msg ∷ rest) (read_all-Pending host n r' msgs (omega arith) pending))

add_all-some :
    (host : Endian) (w w1 : BatchWriter) (msg : List ℕ) (msgs : List (List ℕ))
    → nn_batch_writer_add host w msg ≡ some w1
    → add_all host w (msg ∷ msgs) ≡ add_all host w1 msgs
unfolding add_all
add_all-some host w w1 msg msgs h = ground arith

add_all-none :
    (host : Endian) (w : BatchWriter) (msg : List ℕ) (msgs : List (List ℕ))
    → nn_batch_writer_add host w msg ≡ none
    → add_all host w (msg ∷ msgs) ≡ none
unfolding add_all
add_all-none host w msg msgs h = ground arith

add_all-nil : (host : Endian) (w : BatchWriter) → add_all host w [] ≡ some w
unfolding add_all
add_all-nil host w = refl

pub add_all-Holds :
    (host : Endian) (w : BatchWriter) (done msgs : List (List ℕ)) (w' : BatchWriter)
    → Holds w done
    → add_all host w msgs ≡ some w'
    → Holds w' (done ++ msgs) × AllShort msgs × (w'.capacity ≡ w.capacity)
add_all-Holds host w done [] w' h e =
    let same : w ≡ w' = cc (add_all-nil host w) in
    rw (append-nil done) (subst (λ x. Holds x done) same h, tt, ap (λ x. x.capacity) (sym same))
add_all-Holds host w done (msg ∷ msgs) w' h e =
    elim (Option-cases (nn_batch_writer_add host w msg)) [
      | inl refused ↦ cc (add_all-none host w msg msgs refused)
      | inr (w1, accepted) ↦
          (let (room, short, few, cap, off, cnt, bytes) = add-writes host msg h accepted in
            let (holds, shorts, same) =
              add_all-Holds host w1 (done ++ (msg ∷ [])) msgs w'
                (add-Holds host w msg done w1 h accepted)
                (sym (add_all-some host w w1 msg msgs accepted) ∙ e) in
            (rw (append_assoc done (msg ∷ []) msgs) at holds, (short, shorts), same ∙ cap))
    ]

load-set_front : (buf : List ℕ) (v n : ℕ) → load (set buf 0 v) 1 n ≡ load buf 1 n
load-set_front [] v n = refl
load-set_front (x ∷ xs) v n = refl

get_or-set_front : (buf : List ℕ) (v : ℕ) → 0 < length buf → get_or (set buf 0 v) 0 0 ≡ v
get_or-set_front [] v h = absurd (omega arith)
get_or-set_front (x ∷ xs) v h = refl

-- A finished batch of at least one message, seen by a reader.
finish-Pending :
    (w : BatchWriter) (msg : List ℕ) (msgs : List (List ℕ))
    → Holds w (msg ∷ msgs)
    → AllShort (msg ∷ msgs)
    → let (size, buf) = nn_batch_writer_finish w in
      (size ≤ w.capacity)
      × ((r : BatchReader) × (nn_batch_reader_init buf size ≡ some r) × Pending r (msg ∷ msgs))
unfolding nn_batch_writer_finish nn_batch_reader_init
finish-Pending w msg msgs h short =
    let some_left : (w.count == 0) ≡ false = ground (arith, h.counted) in
    let enough : ltb w.offset 1 ≡ false = ground (arith, h.written) in
    let count : get_or (set w.buf 0 w.count) 0 0 ≡ w.count =
      get_or-set_front w.buf w.count (omega (arith, h.written, h.within, h.fits)) in
    rw (some_left, enough, count)
      (
        h.within,
        (
          record {
            buf = set w.buf 0 w.count;
            buf_len = w.offset;
            offset = 1;
            count = w.count;
            read = 0;
          },
          refl,
          record {
            within = omega (arith, h.written);
            fits = omega (arith, h.within, h.fits, length-set w.buf 0 w.count);
            object = omega (arith, h.object, length-set w.buf 0 w.count);
            counted = omega (arith, h.counted);
            few = h.few;
            short = short;
            bytes = load-set_front w.buf w.count (length (frames (msg ∷ msgs))) ∙ h.bytes;
          },
        ),
      )

capacity-init :
    (buf : List ℕ) (capacity : ℕ) → (nn_batch_writer_init buf capacity).capacity ≡ capacity
unfolding nn_batch_writer_init
capacity-init buf capacity = refl

-- Messages that a writer accepts, at least one, make a packet within its capacity, from which a
-- reader on a host of any byte order gets back just these messages, in order.
pub batch_roundtrip :
    (from to : Endian) (buf : List ℕ) (capacity : ℕ) (msgs : List (List ℕ)) (w : BatchWriter)
    → 1 ≤ capacity
    → capacity ≤ length buf
    → length buf < 2 ^ 63
    → msgs ≢ []
    → add_all from (nn_batch_writer_init buf capacity) msgs ≡ some w
    → let (size, packet) = nn_batch_writer_finish w in
      (size ≤ capacity)
      × ((r : BatchReader) × (nn_batch_reader_init packet size ≡ some r)
          × (read_all to 256 r ≡ msgs))
batch_roundtrip from to buf capacity [] w p q s ne e = absurd (ne refl)
batch_roundtrip from to buf capacity (msg ∷ msgs) w p q s ne e =
    let (holds, short, same) =
      add_all-Holds from (nn_batch_writer_init buf capacity) [] (msg ∷ msgs) w
        (init-Holds buf capacity p q s) e in
    let (size_fits, (r, ready, pending)) = finish-Pending w msg msgs holds short in
    (
      omega (arith, size_fits, same, capacity-init buf capacity),
      (
        r,
        ready,
        read_all-Pending to 256 r (msg ∷ msgs) (omega (arith, holds.counted, holds.few)) pending,
      ),
    )
