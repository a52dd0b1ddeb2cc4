-- ===== src/Examples/Trees.antt =====
-- The theorems on octree allocation at a tree of two full cubes.
use all_is_cubes.Alloctree.Releasing.{allocate-free, free-Released, Released}
use all_is_cubes.Alloctree.Whole.{Taken, IsGiven, IsSound}
use all_is_cubes.Alloctree.Growing.{allocate_with_growth-Allocates, GrownAttempt}
use all_is_cubes.Prelude.Run.{ret}
use all_is_cubes.Prelude.{
  refl, ◌↔◌, true, some, false, inr, inl, if◌then◌else◌, arith, Bool-cases, ◌≡◌,
}
use all_is_cubes.Math.Vector.{Cube, vec}
use all_is_cubes.Alloctree.Occupancy.{Deep}
use all_is_cubes.Prelude.Int.{◌*ℤ◌, ◌-ℤ◌, pos, negsuc, ◌+ℤ◌}
use all_is_cubes.Math.GridAab.{GridAab}
use all_is_cubes.Alloctree.{
  with_child, AlloctreeHandle, full, empty, oct, grow_to, allocate_with_growth, AlloctreeNode,
  TreeAllocated, Octant, Alloctree,
}
use all_is_cubes.Alloctree
use all_is_cubes.Math.GridAab
use all_is_cubes.Math.GridAab.Operations
use all_is_cubes.Math.Vector.{scale, add}
use all_is_cubes.Prelude.Run.{i32, checked_i32}
use all_is_cubes.Math.GridAab.{check_axis, checked_volume_helper}
use all_is_cubes.Math.GridAab.Volume.{IsValid}

abbrev pair : Octant → AlloctreeNode
pair o = if o.x then empty else if o.y then empty else full

abbrev tree : Alloctree
tree = record { size_exponent = 1; root = oct pair; occupied_volume = 2 }

abbrev request : GridAab
request = record {
  lower_bounds = vec (negsuc 4) (pos 7) (pos 0);
  sizes = vec (pos 1) (pos 1) (pos 1);
}

abbrev wide_request : GridAab
wide_request = record {
  lower_bounds = vec (negsuc 4) (pos 7) (pos 0);
  sizes = vec (pos 3) (pos 2) (pos 1);
}

request-IsValid : IsValid request
unfolding ◌+ℤ◌
request-IsValid = record {
  lower_in = omega arith;
  sizes_in = omega arith;
  x_axis = omega arith;
  y_axis = omega arith;
  z_axis = omega arith;
  volume_lt = omega arith;
}

wide_request-IsValid : IsValid wide_request
unfolding ◌+ℤ◌
wide_request-IsValid = record {
  lower_in = omega arith;
  sizes_in = omega arith;
  x_axis = omega arith;
  y_axis = omega arith;
  z_axis = omega arith;
  volume_lt = omega arith;
}

tree-IsSound : IsSound tree
tree-IsSound = record { size_le = omega arith; deep = deep }
  where
    deep : (o : Octant) → Deep 0 (pair o)
    deep o = elim (Bool-cases o.x) [
      | inl x ↦ rw x tt
      | inr x ↦ elim (Bool-cases o.y) [ inl y ↦ rw (x, y) tt | inr y ↦ rw (x, y) tt ]
    ]

allocate_with_growth-Allocates_example :
    (r : TreeAllocated) × (allocate_with_growth tree wide_request ≡ ret r)
    × GrownAttempt wide_request tree r
allocate_with_growth-Allocates_example =
    allocate_with_growth-Allocates tree wide_request tree-IsSound wide_request-IsValid (omega arith)

abbrev placed : AlloctreeHandle
placed = record {
  allocation = record {
    lower_bounds = vec (pos 0) (pos 1) (pos 0);
    sizes = vec (pos 1) (pos 1) (pos 1);
  };
  offset = vec (pos 5) (negsuc 5) (pos 0);
}

abbrev three : Octant → AlloctreeNode
three =
    with_child
      (with_child (with_child pair (vec false false false) full) (vec false false true) full)
      (vec false true false) full

abbrev tree_of_three : Alloctree
tree_of_three = record { size_exponent = 1; root = oct three; occupied_volume = 3 }

allocated : Alloctree.allocate tree request ≡ ret (some placed, tree_of_three)
unfolding Alloctree.allocate ◌+ℤ◌ ◌-ℤ◌ ◌*ℤ◌ Alloctree.fits Alloctree.node_allocate scale i32 add
    Alloctree.checked_offset checked_i32 Operations.translate check_axis checked_volume_helper
    GridAab.volume
allocated = refl

allocate-free_example :
    (w : Alloctree) × (Alloctree.free tree_of_three placed ≡ ret w)
    × IsSound w
    × ((c : Cube) → Taken w c ↔ Taken tree c)
    × (w.occupied_volume ≡ 2)
allocate-free_example =
    allocate-free tree tree_of_three request placed tree-IsSound request-IsValid (omega arith)
      allocated

abbrev earlier : AlloctreeHandle
earlier = record {
  allocation = record {
    lower_bounds = vec (pos 0) (pos 0) (pos 1);
    sizes = vec (pos 1) (pos 1) (pos 1);
  };
  offset = vec (pos 9) (pos 0) (pos 0);
}

earlier-IsValid : IsValid earlier.allocation
unfolding ◌+ℤ◌
earlier-IsValid = record {
  lower_in = omega arith;
  sizes_in = omega arith;
  x_axis = omega arith;
  y_axis = omega arith;
  z_axis = omega arith;
  volume_lt = omega arith;
}

earlier-IsGiven : IsGiven tree earlier.allocation.lower_bounds 0
unfolding ◌+ℤ◌
earlier-IsGiven = (vec false false true, (refl, refl))

free-Released_example :
    (u : Alloctree) × (Alloctree.free tree earlier ≡ ret u)
    × Released tree u earlier.allocation.lower_bounds 0 1
free-Released_example =
    free-Released tree earlier 0 tree-IsSound earlier-IsValid earlier-IsGiven (omega arith)
