-- ===== src/Lib.antt =====
-- The core of all-is-cubes: voxel spaces, and the integer geometry that they stand on.
--
-- Parts, with the modules that model them:
--   Math.Vector        vectors and points of i32, from the third-party crate cgmath
--   Math.Face          all-is-cubes/src/math/face.rs: Face6 (Math.Face), Face7 (Math.Face.Seven),
--                      FaceMap (Math.Face.Map)
--   Math.Rotation      all-is-cubes/src/math/rotation.rs: the 48 values of GridRotation, the tables
--                      of from_basis and to_basis (Basis), the operations (Operations)
--   Math.Gridgid       all-is-cubes/src/math/rigid.rs: rigid transformations; rotation.rs: the rotation
--                      of vectors
--   Math.GridAab       all-is-cubes/src/math/grid_aab.rs and cube.rs: boxes of cubes, their checked
--                      constructors and their indexing; the operations on boxes (Operations),
--                      the iterator GridIter (Iter)
--   Space.Palette      all-is-cubes/src/space/palette.rs: the table of the blocks in a space, and how it is
--                      built from a list of blocks (Building)
--   Space.Storage      all-is-cubes/src/space.rs and space/light/updater.rs: a space's contents, the
--                      reads of a cube, and `set` with its side effects
--   Space.Transaction  all-is-cubes/src/space/space_txn.rs: transactions on the cubes of a space; their
--                      commit calls `set` for each cube
--   Inventory          all-is-cubes/src/inv/inventory.rs: slots of items, and transactions on them;
--                      their merging and the use of a tool (Tools)
--   Behavior           all-is-cubes/src/behavior.rs: sets of behaviors, transactions on them, and the
--                      stepping of each behavior
--   Universe           all-is-cubes/src/universe.rs, universe/members.rs and universe/uref.rs: the tables
--                      of members, and references into a heap of cells
--   Universe.Transaction  all-is-cubes/src/universe/universe_txn.rs: what is done to a member, and whole
--                      transactions
--   Universe.Maps      all-is-cubes/src/transaction/generic.rs: merging maps of transactions
--   Layout             all-is-cubes-ui/src/vui/layout.rs: the boxes given to widgets, and their shrinking;
--                      trees of widgets, with the space they require and their layout (Tree)
--   Allocator          all-is-cubes/src/intalloc.rs: the allocator of small integers
--   Resolution         all-is-cubes/src/block/resolution.rs: the resolutions of blocks
--   Alloctree          all-is-cubes-gpu/src/common/octree_alloc.rs: the octree that allocates boxes
-- The other modules below these hold theorems; Examples holds concrete runs.
--
-- State is a record that an operation takes and returns. An operation that can panic has the type
-- `Run`, of Prelude.Run: overflow checks are on in all profiles of the build, so that an i32
-- operation out of range is a panic, as are `unwrap`, `expect` and an index out of range. Errors
-- that the code returns are values of `Option` or `Result`. Integers of the machine are the natural
-- numbers, or the integers of Prelude.Int, with the ranges and the wrapping written out; a usize has
-- 64 bits.
--
-- `Space::set` asks `GridAab::index` for the place of the cube, the palette for the index of the
-- block, and then sends its notifications and light updates; each of these is called in the
-- model as it is in the code. What the palette needs of blocks (a type with equality, AIR) and
-- of their evaluation is the record `Blocks`; what an inventory needs of tools is the record
-- `Items`, and what the use of one does the record `Tools`; what a write reads of an evaluated block
-- is the record `Optics`. A notifier is the list of the messages sent to it, and the light update
-- queue the list of the calls made on it.
--
-- A set of behaviors takes what it needs of its host (the transactions on it, their merging, and
-- how a behavior steps) from the interfaces `Hosts` and `Hosting`; an `Arc` is known by its address.
--
-- A reference to a member of a universe is the address of a cell in a heap, which the universe and
-- all clones of the reference share; the cell's state says whether the reference is pending, in a
-- universe or gone. Names are found in the table of their kind. A whole transaction is checked and
-- committed member by member, over the same heap; a locked cell is a flag that every borrow reads.
-- The transactions of the members themselves (on spaces, characters and block definitions) are an
-- interface, whose commits may fail after a check. What a check keeps locked until its commit is not
-- modelled, and hash maps are iterated in the order of a list.
--
-- An octree node holds its eight children as a function of the octant, and recursion is on the size
-- exponent of the node, as in the code.
--
-- Bounds and fuel: two loops have no bound of their own. `GridRotation::iterate` has a fuel of 48, the
-- number of rotations: no rotation of the grid has a larger order. The loop of `GridIter::fold` over
-- calls of `next` has the number of cubes and one more: each turn but the last visits a cube.
-- `ilog2` of an i32 takes at most 31 halvings.
--
-- Not modelled: floating-point code (rays, light values, cameras, physics of bodies), drawing,
-- meshes, graphics and windows, the installation of widgets, the stepping of universes and the removal of
-- unused members, the behaviors of a space transaction, what the tools do, file formats, content.
pub mod Prelude
pub mod Math
pub mod Space
pub mod Behavior
pub mod Universe
pub mod Layout
pub mod Inventory
pub mod Resolution
pub mod Allocator
pub mod Alloctree
pub mod Examples
