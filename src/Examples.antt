-- ===== src/Examples.antt =====
-- Concrete runs of the theorems.
mod Spaces
mod Transactions
mod Trees
mod Transforms
mod Palettes
mod Building
mod Items
mod Boxes
mod Behaviors
mod Universes
mod Rotations
mod Layouts
