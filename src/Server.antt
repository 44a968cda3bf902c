-- ===== src/Server.antt =====
-- src/server/tunnel/server.go and the files that its requests pass through: who may open what, which
-- clients are compatible, and the connections and workers of a running server.
pub mod Authorization
pub mod Compatibility
pub mod Lifecycle
pub mod Passwords
pub mod KeyRotation
pub mod Handle
pub mod ReverseListener
