-- ===== src/Engine.antt =====
-- The referral engine (packages/shared-utils/src/referral/referral-engine.js).
pub mod Defs
pub mod Outcomes
pub mod Conversions
mod Tests
