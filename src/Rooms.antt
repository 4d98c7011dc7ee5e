-- ===== src/Rooms.antt =====
-- packages/shared-utils/src/realtime/room-manager.js: rooms with members, a lock, a password, a limit
-- and a history, and for each member the set of rooms it is in.
mod Defs
pub mod Membership
pub mod Consistency
pub mod Views
pub mod Joining
pub mod Reachable
mod Tests
unfoldable pub use Defs.*
