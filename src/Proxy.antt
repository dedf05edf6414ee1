-- ===== src/Proxy.antt =====
-- assign6: a caching HTTP proxy.
pub mod Header
pub mod Payload
pub mod Request
pub mod Response
pub mod StrikeSet
pub mod Bridge
pub mod Cache
pub mod Handler
pub mod Options
mod Tests
