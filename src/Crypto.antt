-- ===== src/Crypto.antt =====
-- cbits/nn_crypto.h and nn_crypto.c: ChaCha20, Poly1305, and their combination with a nonce of the
-- packet's counter and the protocol. The wipes of local buffers before a return change nothing that
-- a caller sees, and are left out.
pub mod Chacha20
pub mod Poly1305
pub mod Aead
pub mod Siphash
pub mod Tests
