-- ===== src/Public.antt =====
-- The public API (app/api/v1/public), which the other routers share helpers with.
pub mod RateLimit
pub mod WsAuth
