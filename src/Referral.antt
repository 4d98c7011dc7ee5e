-- ===== src/Referral.antt =====
-- packages/shared-utils/src/referral/multi-level-commissions.js: the referral network, in which each
-- user has at most one referrer, and what a purchase pays to the users above the purchaser.
mod Defs
pub mod Walks
pub mod Forest
pub mod Payout
pub mod Upline
pub mod Downline
pub mod Levels
mod Tests
unfoldable pub use Defs.*
