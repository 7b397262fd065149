-- ===== src/Pow.antt =====
-- Proof of work: src/p2p/pow.go, src/p2p/gas.go and src/crypto/puzzle.go. The hash is the standard
-- library's SHA-256, a parameter of which only the length and the byte range are assumed.
pub mod Nonce
pub mod Hash
pub mod Bits
pub mod Gas
pub mod Puzzle
pub mod NodeId
