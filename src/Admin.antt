-- ===== src/Admin.antt =====
-- The administration endpoints (app/api/v1/admin).
pub mod Idempotency
pub mod Connectors
