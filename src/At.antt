-- ===== src/At.antt =====
-- The Africa's Talking and WhatsApp endpoints (app/api/v1/at).
pub mod Idempotency
pub mod Callbacks
pub mod ServiceAuth
pub mod Webhooks
pub mod CampaignAnalytics
pub mod Payments
