-- ===== src/Server.antt =====
-- The HTTP gateway, server/src.
pub mod Cache
pub mod Pool
pub mod Managed
pub mod Regions
pub mod Json
pub mod Params
pub mod Gateway
pub mod Projection
pub mod Routes
pub mod Operator
pub mod Accounts
pub mod Paths
pub mod Config
pub mod Startup
