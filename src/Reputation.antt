-- ===== src/Reputation.antt =====
-- src/reputation/score.go: scores of the nodes of the mesh.
pub mod Node
pub mod System
