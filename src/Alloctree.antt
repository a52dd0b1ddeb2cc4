-- ===== src/Alloctree.antt =====
-- all-is-cubes-gpu/src/common/octree_alloc.rs: `Alloctree`, which allocates boxes inside a cube whose
-- edge is a power of two.
--
-- The box of eight children is a function of the octant. A node that is returned is the node after
-- the call.
pub mod Occupancy
pub mod Fitting
pub mod Placing
pub mod Allocating
pub mod Whole
pub mod Growing
pub mod Freeing
pub mod Releasing
use all_is_cubes.Math.GridAab.Operations.{div_euclid}
use all_is_cubes.Prelude.Run.{◌>>=◌, unwrap, ret, panic, checked_i32, Run}
use all_is_cubes.Prelude.Int.{ltb_ℤ, ◌-ℤ◌, eqb_ℤ, pos_part, pos, max_ℤ, leb_ℤ, ℤ}
use all_is_cubes.Math.Vector.{sub, add, scale, vec, Vector3, GridVector, GridPoint}
use all_is_cubes.Math.GridAab.{GridAab}
use all_is_cubes.Math.GridAab
use all_is_cubes.Math.GridAab.Operations
use all_is_cubes.Prelude.{
  get_elem?, ◌^◌, ◌-◌, max, ltb, leb, ◌/◌, ◌+◌, ◌&&◌, if◌then◌else◌, ℕ, zero, suc, Bool, true,
  false, Option, none, some, List, [], ◌∷◌,
}

-- A child of a node: for each axis, whether it is in the upper half.
abbrev pub Octant : Type 0
Octant = Vector3 Bool

-- The order of `interior_iter` on the box of two cubes along each axis.
abbrev pub octants : List Octant
octants =
    vec false false false
    ∷ vec false false true
    ∷ vec false true false
    ∷ vec false true true
    ∷ vec true false false
    ∷ vec true false true
    ∷ vec true true false
    ∷ vec true true true
    ∷ []

abbrev pub bit : Bool → ℤ
bit false = pos 0
bit true = pos 1

abbrev pub octant_position : Octant → GridVector
octant_position o = vec (bit o.x) (bit o.y) (bit o.z)

abbrev pub eqb_bool : Bool → Bool → Bool
eqb_bool true b = b
eqb_bool false true = false
eqb_bool false false = true

unfoldable pub eqb_octant : Octant → Octant → Bool
eqb_octant o p = eqb_bool o.x p.x && eqb_bool o.y p.y && eqb_bool o.z p.z

pub data AlloctreeNode : Type 0 where
  empty full : AlloctreeNode
  oct : (Octant → AlloctreeNode) → AlloctreeNode

pub record AlloctreeHandle : Type 0 where
  pub allocation : GridAab
  pub offset : GridVector

pub record Alloctree : Type 0 where
  pub size_exponent : ℕ
  pub root : AlloctreeNode
  pub occupied_volume : ℕ

abbrev pub max_size_exponent : ℕ
max_size_exponent = 10

unfoldable pub expsize : ℕ → ℤ
expsize e = if leb 31 e then pos (2 ^ 31 - 1) else pos (2 ^ e)

unfoldable pub max_edge_length : GridVector → ℤ
max_edge_length s = max_ℤ (max_ℤ (max_ℤ s.x s.y) s.z) (pos 0)

unfoldable pub fits : GridAab → ℕ → Bool
unfolding max_edge_length expsize
fits request e = leb_ℤ (max_edge_length request.sizes) (expsize e)

abbrev pub with_child : (Octant → AlloctreeNode) → Octant → AlloctreeNode → Octant → AlloctreeNode
with_child children o child p = if eqb_octant o p then child else children p

-- `wrap_in_oct`
unfoldable pub wrap_in_oct : AlloctreeNode → AlloctreeNode
unfolding eqb_octant
wrap_in_oct n = oct (with_child (λ o. empty) (vec false false false) n)

-- What an allocation returns, and the node after it.
abbrev pub Allocated : Type 0
Allocated = Option AlloctreeHandle × AlloctreeNode

-- `checked_sub` on the three components.
unfoldable pub checked_offset : GridPoint → GridPoint → Option GridVector
checked_offset low lower = elim (checked_i32 (low.x -ℤ lower.x)) [
  | none ↦ none
  | some x ↦ elim (checked_i32 (low.y -ℤ lower.y)) [
    | none ↦ none
    | some y ↦ elim (checked_i32 (low.z -ℤ lower.z)) [ none ↦ none | some z ↦ some (vec x y z) ]
  ]
]

-- The branch that occupies an empty node.
unfoldable pub occupy : GridPoint → GridAab → Run Allocated
occupy low request = elim (checked_offset low request.lower_bounds) [
  | none ↦ ret (none, empty)
  | some offset ↦ do
    moved ← Operations.translate request offset
    let handle : AlloctreeHandle = record { allocation = moved; offset = offset }
    ret (some handle, full)
]

unfoldable pub child_corner : ℕ → GridPoint → Octant → Run GridPoint
child_corner e low o = do step ← scale (octant_position o) (expsize e); add low step

-- The first child that allocates, of those in the list. `call` is the allocation in a child of size
-- exponent `e`.
unfoldable pub first_child :
    (AlloctreeNode → GridPoint → Run Allocated)
    → ℕ
    → (Octant → AlloctreeNode)
    → GridPoint
    → List Octant
    → Run Allocated
unfolding child_corner eqb_octant
first_child call e children low [] = ret (none, oct children)
first_child call e children low (o ∷ os) = child_corner e low o >>= λ corner.
    call (children o) corner >>= λ (r, child). elim r [
      | none ↦ first_child call e (with_child children o child) low os
      | some handle ↦ ret (some handle, oct (with_child children o child))
    ]

unfoldable pub node_allocate : ℕ → AlloctreeNode → GridPoint → GridAab → Run Allocated
unfolding occupy first_child wrap_in_oct
node_allocate zero empty low request = if fits request 0 then occupy low request else panic
node_allocate zero full low request = if fits request 0 then ret (none, full) else panic
node_allocate zero (oct children) low request = panic
node_allocate (suc e) empty low request =
    let branch =
      (node_allocate e empty low request >>= λ (r, child). elim r [
        | none ↦ ret (none, empty)
        | some handle ↦ ret (some handle, wrap_in_oct child)
      ]) in
    if fits request (suc e) then (if fits request e then branch else occupy low request) else panic
node_allocate (suc e) full low request = if fits request (suc e) then ret (none, full) else panic
node_allocate (suc e) (oct children) low request =
    let search_children =
      first_child (λ child corner. node_allocate e child corner request) e children low octants in
    if fits request (suc e)
    then (if fits request e then search_children else ret (none, oct children))
    else panic

-- `Alloctree::new`
unfoldable pub new_tree : ℕ → Run Alloctree
new_tree e =
    if leb e max_size_exponent
    then ret (record { size_exponent = e; root = empty; occupied_volume = 0 })
    else panic

abbrev pub TreeAllocated : Type 0
TreeAllocated = Option AlloctreeHandle × Alloctree

-- `occupied_volume` is a `usize`.
unfoldable pub allocate : Alloctree → GridAab → Run TreeAllocated
allocate t request =
    if fits request t.size_exponent
    then (node_allocate t.size_exponent t.root (vec (pos 0) (pos 0) (pos 0)) request
        >>= λ (r, root). elim r [
          | none ↦ ret (none, record t { root = root })
          | some handle ↦ GridAab.volume request >>= λ v.
              if ltb (t.occupied_volume + v) (2 ^ 64)
              then ret
                  (some handle, record t { root = root; occupied_volume = t.occupied_volume + v })
              else panic
        ])
    else ret (none, t)

-- The loop of `grow_to`, for a number of rounds.
unfoldable pub grow_by : ℕ → Alloctree → Alloctree
unfolding wrap_in_oct
grow_by zero t = t
grow_by (suc n) t =
    grow_by n (record t { size_exponent = suc t.size_exponent; root = wrap_in_oct t.root })

unfoldable pub grow_to : ℕ → Alloctree → Run Alloctree
unfolding grow_by
grow_to e t = if leb e max_size_exponent then ret (grow_by (e - t.size_exponent) t) else panic

-- `i32::ilog2` of a positive number, in a number of rounds.
unfoldable pub ilog2 : ℕ → ℕ → ℕ
ilog2 zero n = 0
ilog2 (suc fuel) n = let rest = suc (ilog2 fuel (n / 2)) in if ltb n 2 then 0 else rest

unfoldable pub max_edge_length_exponent : GridVector → ℕ
unfolding max_edge_length ilog2 expsize
max_edge_length_exponent size =
    let longest = max_edge_length size in
    let exp = ilog2 31 (pos_part longest) in
    if eqb_ℤ longest (pos 0) then 0 else if ltb_ℤ (expsize exp) longest then exp + 1 else exp

unfoldable pub allocate_with_growth : Alloctree → GridAab → Run TreeAllocated
unfolding allocate grow_to max_edge_length_exponent
allocate_with_growth t request =
    let new_size_exponent = max t.size_exponent (max_edge_length_exponent request.sizes) + 1 in
    if fits request max_size_exponent
    then (allocate t request >>= λ (r, u). elim r [
      | some handle ↦ ret (some handle, u)
      | none ↦
          if leb new_size_exponent max_size_exponent
          then (grow_to new_size_exponent u >>= λ grown. allocate grown request)
          else ret (none, u)
    ])
    else ret (none, t)

-- The children of a node in their array, and the child that a point lies in.
unfoldable pub child_index : GridPoint → Run Octant
child_index which =
    unwrap (
      GridAab.index
        (record { lower_bounds = vec (pos 0) (pos 0) (pos 0); sizes = vec (pos 2) (pos 2) (pos 2) })
        which)
    >>= λ i. unwrap (get_elem? octants i)

abbrev pub div_point : GridPoint → ℕ → GridPoint
div_point p d = vec (div_euclid p.x d) (div_euclid p.y d) (div_euclid p.z d)

unfoldable pub node_free : ℕ → AlloctreeNode → GridPoint → Run AlloctreeNode
unfolding child_index expsize eqb_octant
node_free e empty low = panic
node_free e full low = ret empty
node_free zero (oct children) low = panic
node_free (suc e) (oct children) low = do
  let which = div_point low (pos_part (expsize e))
  o ← child_index which
  step ← scale which (expsize e)
  rest ← sub low step
  child ← node_free e (children o) rest
  ret (oct (with_child children o child))

-- `occupied_volume -= volume` panics below zero.
unfoldable pub free : Alloctree → AlloctreeHandle → Run Alloctree
unfolding node_free
free t handle = do
  root ← node_free t.size_exponent t.root handle.allocation.lower_bounds
  v ← GridAab.volume handle.allocation
  if leb v t.occupied_volume
      then ret (record t { root = root; occupied_volume = t.occupied_volume - v })
      else panic
