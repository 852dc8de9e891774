-- ===== src/SentBuf/Tests.antt =====
-- The packets in flight on a few numbers.
use nova_net.SentBuf.{SentRecord, SentBuf, nn_sent_buf_init, nn_sent_buf_insert}
use nova_net.SentBuf.Count.{IsValid, init-IsValid, insert-IsValid}

abbrev packet : SentRecord
packet = record {
  channel_id = 1;
  channel_seq = 7;
  send_time_ns = 5000;
  size = 100;
  nack_count = 0;
  occupied = 0;
}

-- 3 is in flight.
abbrev flight : SentBuf
flight = (nn_sent_buf_insert nn_sent_buf_init 3 packet).0

flight-IsValid : IsValid flight
flight-IsValid = insert-IsValid 3 packet init-IsValid
