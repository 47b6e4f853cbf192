-- ===== src/Api.antt =====
-- src/api: middleware, controllers and the composition root.
pub mod Middleware
pub mod Application
pub mod Server
pub mod Config
pub mod Initialize
pub mod Controllers
pub mod Wiring
pub mod Lifecycle
