-- ===== src/Gateway.antt =====
-- services/api-gateway/src: the guards that run before the reverse proxy, and its routes.
pub mod Pattern
pub mod Routes
pub mod RateLimit
pub mod JwtAuthGuard
pub mod ProxyController
mod Tests
