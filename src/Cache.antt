-- ===== src/Cache.antt =====
-- packages/shared-utils/src/cache/memory-cache.js: the in-process cache with least-recently-used
-- eviction, expiry and statistics.
mod Defs
pub mod Eviction
pub mod Bounds
pub mod Reads
mod Tests
unfoldable pub use Defs.*
