-- ===== src/Space.antt =====
-- The container of blocks, all-is-cubes/src/space.rs and all-is-cubes/src/space/.
pub mod Palette
pub mod Storage
pub mod Transaction
