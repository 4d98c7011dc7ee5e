-- ===== src/Router.antt =====
-- Routing of refunds (packages/shared-utils/src/refunds/refund-method-router.js).
pub mod Table
pub mod Defs
pub mod Choice
mod Tests
