-- ===== src/Shared.antt =====
-- shared/: what the backend and the SIP bridge both use.
pub mod PhoneIdentity
