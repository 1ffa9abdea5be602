-- ===== src/Utilities.antt =====
-- packages/utilities.
pub mod BinarySearch
