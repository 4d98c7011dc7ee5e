-- ===== src/Menus.antt =====
-- USSD menus (packages/shared-utils/src/ussd/menu-builder.js).
pub mod Defs
pub mod Paths
mod Tests
