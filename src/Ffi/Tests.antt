-- ===== src/Ffi/Tests.antt =====
-- A tracker and a sent buffer behind the handles 1 and 2, a loss window behind 3.
use mathlib.Core.Option
use nova_net.Prelude.{
  ℕ, zero, suc, ◌+◌, ◌-◌, ◌*◌, ◌/◌, ◌≡◌, refl, ap, ltb, leb, Option, none, some, List, [], ◌∷◌,
  arith,
}
use nova_net.Prelude.Int.{pos, pos_part}
use nova_net.Wire.{little, big}
use nova_net.Congestion.Double.{Double}
use nova_net.Bandwidth.{Constants}
use nova_net.RecvBuf.{nn_recv_buf_init}
use nova_net.SentBuf.{nn_sent_buf_init}
use nova_net.LossWindow.{nn_loss_window_init}
use nova_net.Ffi.{
  kind_of, Kind, Object, Heap, put, recv_buf_kind, sent_buf_kind, loss_window_kind, of_recv_buf,
  of_sent_buf, of_loss_window, of_cwnd,
}
use nova_net.Ffi.Calls.{run, ack_process}
use nova_net.Congestion.Cwnd.{CongCwnd, nn_cong_cwnd_init, nn_cong_cwnd_on_send}
use nova_net.Ffi.Typing.{IsTyped, Succeeds, run-Succeeds}
use nova_net.Ffi.Valid.{allocate}
use nova_net.Ffi.Scalars.{
  nn_ffi_packet_write, nn_ffi_packet_read, nn_ffi_fragment_write, nn_ffi_fragment_read,
}
use nova_net.Ffi.Headers.{ffi_packet_read-write, ffi_fragment_read-write}

abbrev whole : Double ℕ
whole = record {
  add = λ a b. a + b;
  sub = λ a b. a - b;
  mul = λ a b. a * b;
  div = λ a b. a / b;
  lt = ltb;
  le = leb;
  from_int = pos_part;
  to_int = pos;
}

abbrev constants : Constants ℕ
constants = record {
  default_window = 1000;
  zero_f = 0;
  ns_per_ms = 1000000;
  giga = 1000000000;
  milli = 1;
  to_u64 = λ v. v;
}

-- Every struct fits in 10000 bytes.
abbrev size_of : Kind → ℕ
size_of k = 10000

abbrev kinds : ℕ → Option Kind
kinds zero = none
kinds (suc zero) = some recv_buf_kind
kinds (suc (suc zero)) = some sent_buf_kind
kinds (suc (suc (suc zero))) = some loss_window_kind
kinds (suc (suc (suc (suc p)))) = none

abbrev object_at : ℕ → Option (Object ℕ)
object_at zero = none
object_at (suc zero) = some (of_recv_buf nn_recv_buf_init)
object_at (suc (suc zero)) = some (of_sent_buf nn_sent_buf_init)
object_at (suc (suc (suc zero))) = some (of_loss_window nn_loss_window_init)
object_at (suc (suc (suc (suc p)))) = none

abbrev heap : Heap ℕ
heap p = record { bytes = 10000; object = object_at p }

heap_agrees : (p : ℕ) (o : Object ℕ) → object_at p ≡ some o → kinds p ≡ some (kind_of o)
heap_agrees zero o e = absurd (Option.none-ne-some o e)
heap_agrees (suc zero) o e =
    ap (λ x. some (kind_of x)) (Option.some-injective (of_recv_buf nn_recv_buf_init) o e)
heap_agrees (suc (suc zero)) o e =
    ap (λ x. some (kind_of x)) (Option.some-injective (of_sent_buf nn_sent_buf_init) o e)
heap_agrees (suc (suc (suc zero))) o e =
    ap (λ x. some (kind_of x)) (Option.some-injective (of_loss_window nn_loss_window_init) o e)
heap_agrees (suc (suc (suc (suc p)))) o e = absurd (Option.none-ne-some o e)

heap-IsTyped : IsTyped size_of kinds heap
heap-IsTyped = record { fits = λ p k e. omega arith; agrees = heap_agrees }

run-Succeeds_example :
    Succeeds size_of kinds heap
      ((2, sent_buf_kind) ∷ (3, loss_window_kind) ∷ [])
      (run whole constants size_of (ack_process 2 3 7 5 9000) heap)
run-Succeeds_example =
    run-Succeeds whole constants size_of kinds heap (ack_process 2 3 7 5 9000) heap-IsTyped
      (refl, (refl, tt))
      (λ e.
        ((of_sent_buf nn_sent_buf_init, refl), ((of_loss_window nn_loss_window_init, refl), tt)))

abbrev empty : Heap ℕ
empty p = record { bytes = 0; object = none }

-- A congestion window is opened and a packet of 1200 bytes is sent.
abbrev opened : CongCwnd ℕ
opened = nn_cong_cwnd_init whole 1200

abbrev sent_one : CongCwnd ℕ
sent_one = nn_cong_cwnd_on_send whole opened (pos 1200) (pos 9000)

abbrev started : Heap ℕ
started = put (allocate empty 1 10000) 1 (of_cwnd opened)

abbrev sending : Heap ℕ
sending = put started 1 (of_cwnd sent_one)

abbrev window : Object ℕ
window = of_cwnd sent_one

abbrev buffer : List ℕ
buffer = 0 ∷ 0 ∷ 0 ∷ 0 ∷ 0 ∷ 0 ∷ 0 ∷ 0 ∷ 0 ∷ []

ffi_packet_read-write_example :
    (out : List ℕ) × (nn_ffi_packet_write 3 40 7 5 buffer ≡ some (9, out))
    × (nn_ffi_packet_read out 9 ≡ some (3, 40, 7, 5))
ffi_packet_read-write_example =
    ffi_packet_read-write 3 40 7 5 buffer 9 (omega arith) (omega arith) (omega arith) (omega arith)
      (omega arith) (omega arith)

ffi_fragment_read-write_example :
    (out : List ℕ) × (nn_ffi_fragment_write big 70000 2 5 buffer ≡ some (6, out))
    × (nn_ffi_fragment_read little
          (record { message_id = 9; fragment_index = 9; fragment_count = 9 })
          out
          9
        ≡ some (70000, 2, 5))
ffi_fragment_read-write_example =
    ffi_fragment_read-write big little
      (record { message_id = 9; fragment_index = 9; fragment_count = 9 }) 70000 2 5 buffer 9
      (omega arith) (omega arith) (omega arith) (omega arith) (omega arith) (omega arith)
