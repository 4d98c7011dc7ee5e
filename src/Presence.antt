-- ===== src/Presence.antt =====
-- packages/shared-utils/src/realtime/presence-tracker.js: who is online, idle, away or offline, with
-- the timer that demotes and removes the inactive.
mod Defs
pub mod Statuses
pub mod Timer
pub mod Counts
mod Tests
unfoldable pub use Defs.*
