-- ===== src/DeadLetters.antt =====
-- The dead letter queue (packages/shared-utils/src/messaging/dead-letter-handler.js).
pub mod Defs
pub mod Replay
pub mod Stuck
mod Tests
