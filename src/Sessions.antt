-- ===== src/Sessions.antt =====
-- USSD sessions (packages/shared-utils/src/ussd/session-manager.js).
pub mod Defs
pub mod Counting
pub mod Changes
pub mod Limits
pub mod Navigation
pub mod Expiry
pub mod Stats
mod Tests
