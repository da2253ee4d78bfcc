-- ===== src/At/Payments.antt =====
-- app/api/v1/at/service_payments.py: Paystack payments, virtual accounts and webhooks.
pub mod Records
pub mod Accounts
pub mod Gateway
pub mod Create
pub mod Webhook
pub mod VirtualAccounts
pub mod Reported
pub mod Counted
pub mod Paid
pub mod Signed
mod Tests
