-- ===== src/Retry.antt =====
-- Retries with backoff (packages/shared-utils/src/messaging/retry-policy.js).
pub mod Defs
pub mod Classes
pub mod Attempts
mod Tests
