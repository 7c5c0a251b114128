-- ===== src/Proxy.antt =====
-- internal/proxy: the HTTP proxy.
pub mod Auth
mod Tests
pub mod Breaker
pub mod World
pub mod Model
pub mod Handler
pub mod Forward
pub mod Upstream
pub mod Translate
pub mod Serve
pub mod Credentials
mod Fixture
pub mod Server
pub mod Daemon
