-- ===== src/Dict.antt =====
-- A JavaScript `Map`: the entries in the order of insertion, and the laws of its operations.
mod Defs
mod Laws
unfoldable pub use Defs.*
pub use Laws.*
