-- ===== src/Webhooks.antt =====
-- Webhooks (packages/shared-utils/src/messaging/webhook-manager.js).
pub mod Defs
pub mod Sending
pub mod Log
mod Tests
