-- ===== src/Refunds.antt =====
-- The refund eligibility check with the policy engine that it asks
-- (packages/shared-utils/src/refunds/refund-eligibility-checker.js and refund-policy-engine.js).
pub mod Granting
pub mod Paying
mod Tests
