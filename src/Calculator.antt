-- ===== src/Calculator.antt =====
-- Commissions (packages/shared-utils/src/referral/commission-calculator.js).
pub mod Defs
pub mod Tiers
mod Tests
