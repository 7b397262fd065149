-- ===== src/Crypto.antt =====
-- Encryption, the handshake and the identities of src/crypto. ChaCha20-Poly1305, BLAKE2b, Ed25519 and the system's
-- randomness are parameters.
pub mod Aead
pub mod Encryption
pub mod Noise
pub mod Identity
