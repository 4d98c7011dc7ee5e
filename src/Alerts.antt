-- ===== src/Alerts.antt =====
-- packages/shared-utils/src/monitoring/alert-manager.js: rules, the alerts that fire and their
-- history.
mod Defs
pub mod Firing
pub mod HistoryBound
mod Tests
unfoldable pub use Defs.*
