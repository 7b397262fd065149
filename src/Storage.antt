-- ===== src/Storage.antt =====
-- The storage layer of src/storage: replicated documents (crdt.go), the store on disk
-- (persistence.go) and the file system over both (replicated_fs.go).
pub mod VectorClock
pub mod Value
pub mod Document
pub mod Store
pub mod Pointers
pub mod Persistence
pub mod ReplicatedFs
