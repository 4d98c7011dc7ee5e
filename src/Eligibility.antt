-- ===== src/Eligibility.antt =====
-- Refund eligibility (packages/shared-utils/src/refunds/refund-eligibility-checker.js).
pub mod Defs
pub mod Conditions
pub mod Batch
mod Tests
