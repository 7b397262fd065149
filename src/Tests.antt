-- ===== src/Tests.antt =====
-- Concrete runs of the models: small replicas, nodes, messages and sessions.
mod Samples
mod Database
mod Files
mod Stores
mod Domains
mod Nodes
mod Storage
mod Reputation
mod Pow
mod Network
mod Crypto
