-- ===== src/Lib.antt =====
-- A model of the C core of nova-net, the reliable-UDP game networking library, under cbits/.
--
-- The core is a set of small components over caller-owned structs: the wire format (packet header,
-- fragments, batches, CRC32C), the sequence numbers and the rings that track received and sent
-- packets, the acknowledgement field, the processing of a received acknowledgement, the
-- estimator of the round-trip time, the two congestion controllers, the meter of the bandwidth and
-- the encryption of packets. `nn_ack_process` is where they meet: it looks packets up in the sent
-- buffer, deletes or marks them, and records each outcome in the loss window. Haskell reaches the core
-- through `nn_ffi_*`, which take handles of memory in place of structs; its reliability endpoint keeps
-- a sent buffer, a loss window and an estimator for what it sends, and a tracker and an
-- acknowledgement field for what it receives.
--
-- Each file below is a component; its child modules hold what is proved of it.
--   Prelude      shared: tests on numbers, lists, 16/32/64-bit wrap-around, bits, integers
--   Wire         cbits/nn_wire.h: `nn_bswap*`, `nn_write_*`, `nn_read_*`, `nn_buf_has`
--   Seq          cbits/nn_seq.h: `nn_seq_gt`, `nn_seq_diff`, the ring slot
--   RecvBuf      `nn_recv_buf_*` of cbits/nn_seq.h and cbits/nn_seq.c
--   SentBuf      `nn_sent_buf_*` of the same files
--   SeqBuf       `nn_seq_buf_*` of the same files
--   AckBits      `nn_ack_update` of cbits/nn_seq.c
--   LossWindow   `nn_loss_window_*` of cbits/nn_seq.c
--   AckProcess   cbits/nn_ack_process.c
--   Rtt          cbits/nn_rtt.c
--   Packet       cbits/nn_packet.c
--   Fragment     cbits/nn_fragment.c
--   Batch        cbits/nn_batch.c
--   Crc32c       cbits/nn_crc32c.c
--   Crypto       cbits/nn_crypto.c: ChaCha20, Poly1305 and the sealing of a packet;
--                cbits/nn_siphash.c
--   Random       cbits/nn_random.c on each platform, and `nn_rng_*` of cbits/nn_seq.h
--   Bandwidth    cbits/nn_bandwidth.c
--   Congestion   cbits/nn_congestion.h and cbits/nn_congestion.c: the rate and the window
--   Ffi          cbits/nn_ffi.c: the entry points that Haskell calls, on handles and on numbers
--   Link         the client of the core in src/NovaNet/Reliability.hs, at both ends of a network
--
-- A struct is a record, a buffer the list of its bytes, and a function that writes through a pointer
-- returns the new value. A result of -1 or NULL is `none`, or a flag where the code writes before
-- it fails. Numbers are natural numbers with the wrap-around of their width written out; the signed
-- 64-bit times are integers without a width, and a length that is cast to `int` keeps the sign that
-- the cast gives it. The byte order of the host,
-- the instruction that counts bits, the CRC32 instructions of the processors, `sizeof`, the type
-- `double` with its operations and the bit patterns of floats are parameters, and so are the calls of
-- the systems for random bytes, on a state of the system.
--
-- The memory behind the handles is a function from handles to blocks, each with its size and at most
-- one struct; a call on a handle without the struct that it casts to is a fault, `none`. The two ends of
-- a link are one state; what was ever sent stays on the wire, so that any of it may arrive late, again
-- or never, and a run is a sequence of sends, deliveries, replies and acknowledgements in any order.
--
-- Loops are recursion on the list or on the number of rounds that the code has: the walk over the
-- acknowledgement field makes 32 rounds. The client that reads a batch makes at most 256 calls,
-- which is enough since a batch has at most 255 messages. The cipher's loop has a round of fuel for
-- each byte and one more, where it takes one for each 64 bytes; so has the loop over `getentropy`.
--
-- Not modelled: the wiping of locals by `nn_secure_wipe`, which no later call sees; the C tests; and
-- the Haskell layer but for the reliability endpoint: connections, channels, peers, sockets and
-- replication, which are another program on top of this core. Of the endpoint, the allocation of
-- numbers, the reset on migration and the queries, which pass values on.
pub mod Prelude
pub mod Wire
pub mod Seq
pub mod RecvBuf
pub mod SentBuf
pub mod SeqBuf
pub mod AckBits
pub mod LossWindow
pub mod AckProcess
pub mod Link
pub mod Ffi
pub mod Rtt
pub mod Packet
pub mod Fragment
pub mod Batch
pub mod Crc32c
pub mod Congestion
pub mod Crypto
pub mod Random
pub mod Bandwidth
