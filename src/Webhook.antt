-- ===== src/Webhook.antt =====
-- internal/webhook/v1beta1: the four defaulters and validators.
pub mod Validators
pub mod Immutable
pub mod Templates
