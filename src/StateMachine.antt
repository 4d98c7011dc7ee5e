-- ===== src/StateMachine.antt =====
-- Transitions between USSD menus (packages/shared-utils/src/ussd/state-machine.js).
pub mod Defs
pub mod Keys
mod Tests
