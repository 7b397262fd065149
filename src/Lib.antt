-- ===== src/Lib.antt =====
-- Verification library of the mesh node: replicated documents and files, the store on disk,
-- reputation, proof of work, the peer-to-peer layer, encryption, identities, domain names, the
-- configuration and the node itself, modelled from the Go sources.
--
-- Parts and files (paths from the repository's root):
--   Storage: src/storage/crdt.go. VectorClock is DottedVector, Value is CRDTValue, Document is
--   CRDTDocument and Store is CRDTStore; each method is a function of its name in snake case on
--   the state. The store holds documents, a document holds a value and its history, a value holds
--   a vector clock.
--   Storage/Pointers: the Merge methods of src/storage/crdt.go with the locks that they take.
--   Storage/Persistence: src/storage/persistence.go, PersistenceStore, over the record Badger.
--   Storage/ReplicatedFs: src/storage/replicated_fs.go. ReplicatedFs is the state, with opening,
--   listing, SyncWithPeer and the reports; ReplicatedFs/Files has WriteFile, ReadFile, DeleteFile
--   and GetMetadata. A file system writes its chunks to Storage/Persistence and a document for each
--   file to Storage/Store.
--   Reputation: src/reputation/score.go. Node is NodeReputation, System is ReputationSystem. The
--   channel is a list of updates; System/Steps has the goroutines processUpdates and decayLoop and
--   the accesses through a node's pointer as steps that may follow one another in any order.
--   Pow: src/p2p/pow.go, src/p2p/gas.go, src/crypto/puzzle.go and the node ids of
--   src/p2p/kademlia.go. Hash has the three tests on a hash, Nonce the search loop that two of
--   them share, Gas the PoWManager.
--   Crypto: src/crypto/encryption.go (Encryption) and src/crypto/noise_layer.go (Noise), over the
--   record Aead for ChaCha20-Poly1305, and src/crypto/identity.go (Identity), over Ed25519.
--   P2p: src/p2p/kademlia.go (Bucket, Distance, Kademlia, Messages), src/p2p/transport.go
--   (Transport), src/p2p/acl.go and src/p2p/auth.go (Access), src/p2p/holepunch.go (HolePunch for
--   the lighthouse, Puncher for the node), src/p2p/noise.go and src/p2p/handshake.go
--   (NoiseSession), src/p2p/telemetry.go (Telemetry), src/p2p/nat.go and src/p2p/stun.go (Nat),
--   src/p2p/bootstrap.go (Bootstrap).
--   The transport asks Pow/Gas for the toll of a sender and opens datagrams by Crypto/Encryption;
--   the message loop reads and writes the table of Kademlia; a session of NoiseSession sends and
--   reads by the transport and gives it its key, and the handshake asks Access.
--   DomainResolution: src/domain_resolution/resolver.go. The root file has the resolver, its cache
--   and Resolve, DomainResolution/Registry the other calls, over the record Dht.
--   Config: src/config/config.go, with ParseFlags and the lines of main.go that prepare the
--   configuration in Config/Flags.
--   Core/Node: src/core/node.go and the handlers of src/core/health.go. A node holds an identity, a
--   validated configuration, a file system over an open store, and a routing table. Core/Network has
--   initP2P: it asks P2p/Nat, registers by P2p/Puncher and contacts the seeds by P2p/Bootstrap.
--   Base: Go's maps, slices, strings and machine words, and the exchange sort that two files write
--   out. Tests: concrete runs, with a database in one list (Tests/Database).
--
-- Strings and byte slices are lists of numbers, maps are association lists without double keys, in
-- the order that a range over the map happens to take, and times are nanoseconds, given to each
-- function as the answers of the clock. An int64 sum wraps as in Go, and so do the uint32 and
-- uint64 counters. A slice is a value: memory that a caller shares with the model's state is not
-- followed. A mutex makes each method one step, but for applyDecay of Reputation, which does not
-- take the mutex of a node. A panic is `none`, and in the file system an outcome of its own. The
-- merges of vectors, values and documents are functions of two different objects; Storage/Pointers
-- has them as calls through pointers, in which a goroutine that waits for a lock of its own is
-- `none`, and SyncWithPeer is made of these.
--
-- Loops are structural recursion on the list they run over. The search for a nonce recurses on the
-- number of attempts that the source allows, which is also its limit there: 1000000 for a node id
-- and 2^(difficulty + 8) for a puzzle. The chunk loop of WriteFile has the length of the data as
-- fuel: each round takes at least one byte where the chunk size is not 0, which opening a file
-- system sees to; with a chunk size of 0 the loop would not end, which is the outcome for a lack of
-- fuel. The loop of Iterate runs over the items that the iterator still has.
--
-- Parameters: SHA-256, BLAKE2b, ChaCha20-Poly1305, Ed25519, base58, the noise and STUN libraries,
-- the badger database, the distributed table that the resolver imports, the JSON reader, strconv,
-- net.ParseIP, float64, printed times, the socket and the random bytes. The laws assumed are those
-- of their documentation and stand in the theorem that needs them or in the records Aead, Badger,
-- NoiseLibrary and Ed25519. Nothing is assumed of the distributed table: a theorem that needs an
-- answer of it says so.
--
-- Not modelled: badger's log collection and sequences, the goroutines that the start of the network
-- leaves running, src/core/p2p_integration.go (which repeats the first lines of initP2P), the HTTP
-- server, signals, the memory limit, timers, printing and logging, and the commands under cmd/.
pub mod Base
pub mod Storage
pub mod Reputation
pub mod Config
pub mod DomainResolution
pub mod Core
pub mod Pow
pub mod Crypto
pub mod P2p
pub mod Tests
