-- ===== src/Server.antt =====
-- The lock server: server/state.go, server/server.go, server/connection.go, server/response.go.
pub mod Heap
pub mod Shard
pub mod State
pub mod Safety
pub mod Lifecycle
