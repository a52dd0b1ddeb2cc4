-- ===== src/Alloctree/Whole.antt =====
-- `Alloctree::allocate` (all-is-cubes-gpu/src/common/octree_alloc.rs) on a whole tree.
use all_is_cubes.Alloctree.Placing.{moved, Outcome}
use all_is_cubes.Alloctree.Allocating.{node_allocate-Returns}
use all_is_cubes.Prelude.Run.{ret}
use all_is_cubes.Math.GridAab.Index.{Inside}
use all_is_cubes.Math.GridAab.Volume.{checked_volume_helper_iff, cubes}
use all_is_cubes.Prelude.Int.{pos}
use all_is_cubes.Alloctree.Occupancy.{IsLeaf-InBlock, IsLeaf, Occupied, InBlock, Deep}
use all_is_cubes.Alloctree.Fitting.{at_most_1024, LowAt, CornerAt}
use all_is_cubes.Math.GridAab.Volume.{IsValid}
use all_is_cubes.Math.GridAab
use all_is_cubes.Prelude.{
  ◌⊎◌, ◌↔◌, arith, lt→ltb, refl, ap, inl, true, inr, Option, Bool-cases, ◌^◌, ◌<◌, none, some, ◌≡◌,
  ◌+◌, ◌≤◌, ℕ,
}
use all_is_cubes.Math.Vector.{vec, Cube, GridPoint}
use all_is_cubes.Math.GridAab.{GridAab}
use all_is_cubes.Alloctree.{
  node_allocate, fits, AlloctreeNode, allocate, TreeAllocated, AlloctreeHandle, Alloctree,
}

abbrev pub origin : GridPoint
origin = vec (pos 0) (pos 0) (pos 0)

-- The tree is no larger than the largest, and divided no further than cubes.
pub record IsSound (t : Alloctree) : Type 0 where
  pub size_le : t.size_exponent ≤ 10
  pub deep : Deep t.size_exponent t.root

-- The cube is in a node that was given out.
abbrev pub Taken : Alloctree → Cube → Type 0
Taken t c = Occupied t.size_exponent t.root origin c

-- A block that was given out.
abbrev pub IsGiven : Alloctree → GridPoint → ℕ → Type 0
IsGiven t k s = IsLeaf t.size_exponent t.root origin k s

abbrev pub InTree : Alloctree → Cube → Type 0
InTree t c = InBlock t.size_exponent origin c

-- `t` before and `u` after an allocation with a handle.
pub record Allocates (request : GridAab) (t u : Alloctree) (handle : AlloctreeHandle) : Type 0 where
  pub sound : IsSound u
  pub is_moved : handle.allocation ≡ moved request handle.offset
  pub is_valid : IsValid handle.allocation
  pub exponent : ℕ
  pub given : IsGiven u handle.allocation.lower_bounds exponent
  pub covers :
      (c : Cube) → Inside handle.allocation c → InBlock exponent handle.allocation.lower_bounds c
  pub in_tree : (c : Cube) → InBlock exponent handle.allocation.lower_bounds c → InTree u c
  pub was_free : (c : Cube) → InBlock exponent handle.allocation.lower_bounds c → ¬ Taken t c
  pub taken_iff :
      (c : Cube) → Taken u c ↔ (Taken t c ⊎ InBlock exponent handle.allocation.lower_bounds c)
  pub still : (k : GridPoint) (s : ℕ) → IsGiven t k s → IsGiven u k s
  pub counted : u.occupied_volume ≡ t.occupied_volume + cubes request.sizes

pub origin-CornerAt : (e : ℕ) → e ≤ 10 → CornerAt e origin
origin-CornerAt e h = (origin-LowAt, origin-LowAt, origin-LowAt)
  where
    origin-LowAt : LowAt e (pos 0)
    origin-LowAt = (refl, omega (arith, at_most_1024 e h))

pub volume-ret : (b : GridAab) → IsValid b → GridAab.volume b ≡ ret (cubes b.sizes)
unfolding GridAab.volume
volume-ret b v =
    rw
      ((checked_volume_helper_iff b.sizes (cubes b.sizes) v.sizes_in v.x_axis.0 v.y_axis.0
          v.z_axis.0).1
        (refl, v.volume_lt))
      refl

-- The tree without the handle is as before.
abbrev pub Attempt : GridAab → Alloctree → TreeAllocated → Type 0
Attempt request t (none, u) = u ≡ t
Attempt request t (some handle, u) = Allocates request t u handle

module _ (t : Alloctree) (request : GridAab) (s : IsSound t) (v : IsValid request)
    (room : t.occupied_volume + cubes request.sizes < 2 ^ 64) where
  settle :
      (root : AlloctreeNode) (found : Option AlloctreeHandle)
      → fits request t.size_exponent ≡ true
      → node_allocate t.size_exponent t.root origin request ≡ ret (found, root)
      → Outcome t.size_exponent origin request t.root (found, root)
      → (r : TreeAllocated) × (allocate t request ≡ ret r) × Attempt request t r
  unfolding allocate
  settle root none fit run same =
      ((none, record t { root = root }), rw (fit, run) refl, ap (λ n. record t { root = n }) same)
  settle root (some handle) fit run k = (
    (
      some handle,
      record t { root = root; occupied_volume = t.occupied_volume + cubes request.sizes },
    ),
    rw (fit, run, volume-ret request v, lt→ltb _ _ room) refl,
    record {
      sound = record { size_le = s.size_le; deep = k.deep };
      is_moved = k.is_moved;
      is_valid = k.is_valid;
      exponent = k.exponent;
      given = k.leaf;
      covers = k.covers;
      in_tree = λ c i.
          IsLeaf-InBlock t.size_exponent root origin _ k.exponent c
            (origin-CornerAt t.size_exponent s.size_le) k.leaf i;
      was_free = k.was_free;
      taken_iff = λ c. (k.only c, λ x. elim x [ inl old ↦ k.kept c old | inr new ↦ k.taken c new ]);
      still = k.leaves;
      counted = refl;
    },
  )

  attempt : (r : TreeAllocated) × (allocate t request ≡ ret r) × Attempt request t r
  unfolding allocate
  attempt = elim (Bool-cases (fits request t.size_exponent)) [
    | inr wide ↦ ((none, t), rw wide refl, refl)
    | inl fit ↦
        let ((found, root), run, outcome) =
          node_allocate-Returns t.size_exponent t.root origin request s.size_le s.deep
            (origin-CornerAt t.size_exponent s.size_le) v fit in
        settle root found fit run outcome
  ]

-- An allocation in a sound tree never panics as long as the occupied volume is a usize. Without a
-- handle the tree is as it was. With one, the region is the request moved by the offset, and is
-- covered by a block of the tree that is given out now; no cube of the block was taken, and exactly
-- its cubes are taken in addition; the blocks that were given out still are; the tree is sound, and
-- its volume has grown by the request's.
pub allocate-Allocates :
    (t : Alloctree) (request : GridAab)
    → IsSound t
    → IsValid request
    → t.occupied_volume + cubes request.sizes < 2 ^ 64
    → (r : TreeAllocated) × (allocate t request ≡ ret r) × Attempt request t r
allocate-Allocates t request s v room = attempt t request s v room
