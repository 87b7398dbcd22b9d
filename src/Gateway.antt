-- ===== src/Gateway.antt =====
-- The gateway: gateway/internal.
pub mod Session
pub mod Config
pub mod Identity
pub mod Connect
pub mod Framing
pub mod Proxy
pub mod Cache
pub mod Revocation
pub mod Catalog
pub mod Lifecycle
pub mod Listener
