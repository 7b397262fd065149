-- ===== src/Core.antt =====
-- The node of src/core: its parts put together, its start and stop, its health handlers,
-- and what it starts on the network.
pub mod Node
pub mod Lifecycle
pub mod Network
