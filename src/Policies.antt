-- ===== src/Policies.antt =====
-- Refund policies (packages/shared-utils/src/refunds/refund-policy-engine.js).
pub mod Defs
pub mod Names
pub mod Goods
pub mod Services
pub mod Contexts
pub mod Rules
pub mod Batch
pub mod Categories
pub mod Merging
pub mod Checks
pub mod Orders
mod Tests
