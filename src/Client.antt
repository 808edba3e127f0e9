-- ===== src/Client.antt =====
-- The protocol client, client/src.
pub mod Patch
pub mod Jp
pub mod Config
pub mod Session
pub mod Query
pub mod Auth
pub mod Sdk
pub mod SecretFile
mod Tests
