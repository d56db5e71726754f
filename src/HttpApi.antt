-- ===== src/HttpApi.antt =====
-- The HTTP layer, backend/internal/httpapi.
pub mod Forwarded
pub mod ClientId
pub mod Limiters
pub mod Server
pub mod Service
pub mod Logging
pub mod Routes
pub mod Timeouts
