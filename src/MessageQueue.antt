-- ===== src/MessageQueue.antt =====
-- The RabbitMQ client (packages/shared-utils/src/messaging/message-queue.js).
pub mod Defs
pub mod Delivery
pub mod Retries
pub mod Connections
pub mod Outages
mod Tests
