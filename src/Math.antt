-- ===== src/Math.antt =====
-- The module `math` of the crate all-is-cubes: integer geometry (all-is-cubes/src/math/).
pub mod Vector
pub mod Face
pub mod GridAab
pub mod Rotation
pub mod Gridgid
