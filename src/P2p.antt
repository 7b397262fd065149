-- ===== src/P2p.antt =====
-- The peer-to-peer layer of src/p2p: routing table, messages, transport,
-- tickets, handshakes, hole punching and the discovery of addresses.
pub mod Bucket
pub mod Distance
pub mod Kademlia
pub mod Messages
pub mod Transport
pub mod Access
pub mod HolePunch
pub mod NoiseSession
pub mod Telemetry
pub mod Nat
pub mod Bootstrap
pub mod Puncher
