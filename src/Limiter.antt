-- ===== src/Limiter.antt =====
-- packages/shared-utils/src/security/rate-limiter.js: token buckets by key, the middleware around
-- them, and the limiter for functions.
mod Defs
pub mod Buckets
pub mod Bursts
pub mod Calls
mod Tests
unfoldable pub use Defs.*
