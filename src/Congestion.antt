-- ===== src/Congestion.antt =====
-- cbits/nn_congestion.h and nn_congestion.c: the two controllers of the sending rate.
-- `double` is a parameter: a type with the operations that the code uses. The `int64_t` times and
-- the `int32_t` byte counts are integers; the code relies on them not overflowing.
pub mod Double
pub mod Aimd
pub mod Cwnd
pub mod Tests
