-- ===== src/Batch/Tests.antt =====
-- Two messages in a packet of sixteen bytes.
use nova_net.Prelude.{ℕ, ap, ◌≤◌, ◌≡◌, ◌≢◌, refl, List, [], ◌∷◌, length, some, arith}
use nova_net.Wire.{little, big, nn_write_u16le, to_wire, memory_bytes, nn_bswap16}
use nova_net.Batch.{
  BatchWriter, BatchReader, nn_batch_writer_init, nn_batch_writer_add, nn_batch_writer_finish,
  nn_batch_reader_init, nn_batch_reader_next,
}
use nova_net.Batch.Writer.{Holds, init-Holds}
use nova_net.Batch.Reader.{SafeStep, next-SafeStep}
use nova_net.Batch.Roundtrip.{add_all, read_all, batch_roundtrip}

abbrev storage : List ℕ
storage = 0 ∷ 0 ∷ 0 ∷ 0 ∷ 0 ∷ 0 ∷ 0 ∷ 0 ∷ 0 ∷ 0 ∷ []

abbrev fresh : BatchWriter
fresh = record { buf = storage; capacity = 10; offset = 1; count = 0 }

fresh-Holds : Holds fresh []
unfolding nn_batch_writer_init
fresh-Holds = init-Holds storage 10 (omega arith) (omega arith) (omega arith)

abbrev holding_one : BatchWriter
holding_one = record {
  buf = 0 ∷ 2 ∷ 0 ∷ 8 ∷ 9 ∷ 0 ∷ 0 ∷ 0 ∷ 0 ∷ 0 ∷ [];
  capacity = 10;
  offset = 5;
  count = 1;
}

abbrev two : BatchWriter
two = record {
  buf = 0 ∷ 2 ∷ 0 ∷ 8 ∷ 9 ∷ 1 ∷ 0 ∷ 7 ∷ 0 ∷ 0 ∷ [];
  capacity = 10;
  offset = 8;
  count = 2;
}

abbrev reader : BatchReader
reader = record {
  buf = 2 ∷ 2 ∷ 0 ∷ 8 ∷ 9 ∷ 1 ∷ 0 ∷ 7 ∷ [];
  buf_len = 8;
  offset = 1;
  count = 2;
  read = 0;
}

next-SafeStep_example : SafeStep reader (nn_batch_reader_next big reader)
next-SafeStep_example = next-SafeStep big reader (omega arith) (record {
  within = omega arith;
  fits = omega arith;
  object = omega arith;
  count_byte = refl;
  few = omega arith;
  counted = omega arith;
})

abbrev messages : List (List ℕ)
messages = (8 ∷ 9 ∷ []) ∷ (7 ∷ []) ∷ []

not_empty : messages ≢ []
not_empty h = absurd (length_differs (ap length h))
  where
    length_differs : ◌≢◌ {A = ℕ} 2 0
    length_differs e = omega arith

batch_roundtrip_example :
    let (size, packet) = nn_batch_writer_finish two in
    (size ≤ 10)
    × ((r : BatchReader) × (nn_batch_reader_init packet size ≡ some r)
        × (read_all little 256 r ≡ messages))
unfolding add_all nn_batch_writer_init nn_batch_writer_add nn_write_u16le to_wire memory_bytes
    nn_bswap16
batch_roundtrip_example =
    batch_roundtrip big little storage 10 messages two (omega arith) (omega arith) (omega arith)
      not_empty refl
