-- ===== src/Tracker.antt =====
-- Referral events (packages/shared-utils/src/referral/referral-tracker.js).
pub mod Defs
pub mod Once
mod Tests
