-- ===== src/Payments.antt =====
-- Online payments of shipping fees.
pub mod Checks
pub mod Create
pub mod Webhook
pub mod Balance
pub mod Keeps
pub mod WebhookKeeps
pub mod Service
pub mod Replay
pub mod Again
