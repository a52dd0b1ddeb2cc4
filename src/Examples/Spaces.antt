-- ===== src/Examples/Spaces.antt =====
-- The theorems on palettes and spaces at a concrete space of two cubes.
use all_is_cubes.Math.GridAab.Index.{Inside}
use all_is_cubes.Space.Storage.SetOutcome.{set_impl-Promise, Promise}
use all_is_cubes.Space.Storage.Outside.{set_impl_edge}
use all_is_cubes.Prelude.Int.{◌+ℤ◌, negsuc, pos}
use all_is_cubes.Prelude.Run.{ret, panic}
use all_is_cubes.Space.Storage.Soundness.{count, IsSound}
use all_is_cubes.Space.Storage.{set_impl, Written, State, Optics}
use all_is_cubes.Space.Palette.Consistency.{IsConsistent}
use all_is_cubes.Space.Palette.{evaluated, SpaceBlockData, Palette, Blocks}
use all_is_cubes.Math.Vector.{vec, Cube}
use all_is_cubes.Math.GridAab.Volume.{IsValid}
use all_is_cubes.Math.GridAab.{GridAab}
use all_is_cubes.Space.Palette
use all_is_cubes.Prelude.{
  zero, inl, ◌⊎◌, length, ◌<◌, none, ltb, ◌==◌, suc, if◌then◌else◌, some, false, [], ◌∷◌, true,
  nat_eq, get_elem?, Bool, ℕ, ◌≡◌, refl, arith,
}

abbrev pub number_blocks : Blocks
number_blocks = record { Block = ℕ; Evaluated = ℕ; block_eq = nat_eq; air = 0; air_evaluated = 0 }

abbrev pub number_optics : Optics ℕ
number_optics = record {
  Light = Bool;
  opaque_light = false;
  tick_action = λ n. n == 9;
  opaque_for_light = λ n. ltb 5 n;
  opaque = λ n f. ltb 5 n;
}

abbrev pub evaluate : Palette.Evaluator number_blocks
evaluate b = evaluated b

-- Stone twice.
abbrev pub stone : SpaceBlockData ℕ ℕ
stone = record { block = 7; count = 2; evaluated = 7; block_listen_gate = true }

abbrev pub table : Palette ℕ ℕ
table = record {
  entries = stone ∷ [];
  block_to_index = λ b. if 7 == b then some 0 else none;
  todo = [];
}

abbrev pub occurrences : ℕ → ℕ
occurrences i = count i (0 ∷ 0 ∷ [])

pub table-IsConsistent : IsConsistent number_blocks table occurrences
table-IsConsistent = record {
  counts = counts;
  within = within_lem;
  linked = λ b i h. (stone, ground arith, ground arith, inl (omega arith));
  listed = listed;
  small = omega arith;
}
  where
    counts :
        (i : ℕ) (d : Palette.Data number_blocks)
        → get_elem? table.entries i ≡ some d
        → d.count ≡ occurrences i
    counts zero d h = ground arith
    counts (suc i) d h = cc

    within_lem : (i : ℕ) → 0 < occurrences i → i < length table.entries
    within_lem i h = ground arith

    listed :
        (i : ℕ) (d : Palette.Data number_blocks)
        → get_elem? table.entries i ≡ some d
        → (0 < d.count) ⊎ (none ≡ some i)
        → table.block_to_index d.block ≡ some i
    listed zero d h used = ground arith
    listed (suc i) d h used = cc

abbrev bounds : GridAab
bounds = record { lower_bounds = vec (pos 0) (pos 0) (pos 0); sizes = vec (pos 2) (pos 1) (pos 1) }

abbrev pub space : State number_blocks number_optics
space = record {
  bounds = bounds;
  palette = table;
  contents = 0 ∷ 0 ∷ [];
  lighting = true ∷ true ∷ [];
  light_update_queue = [];
  light_enabled = true;
  cubes_wanting_ticks = [];
  notified = [];
}

abbrev east : Cube
east = vec (pos 1) (pos 0) (pos 0)

bounds-IsValid : IsValid bounds
unfolding ◌+ℤ◌
bounds-IsValid = record {
  lower_in = omega arith;
  sizes_in = omega arith;
  x_axis = omega arith;
  y_axis = omega arith;
  z_axis = omega arith;
  volume_lt = omega arith;
}

pub space-IsSound : IsSound number_blocks number_optics space
space-IsSound = record {
  valid = bounds-IsValid;
  filled = refl;
  consistent = table-IsConsistent;
  lit = λ h. refl;
}

east-Inside : Inside bounds east
unfolding ◌+ℤ◌
east-Inside = omega arith

set_impl-Promise_example :
    (out : Written number_blocks number_optics) × (set_impl number_blocks number_optics evaluate
        space east 9
      ≡ ret out)
    × Promise number_blocks number_optics space east 9 out.state out.result
set_impl-Promise_example =
    set_impl-Promise number_blocks number_optics evaluate space east 9 space-IsSound (omega arith)
      east-Inside

abbrev pub outside : Cube
outside = vec (pos 5) (negsuc 3) (pos 0)

pub outside_lem : ¬ Inside bounds outside
unfolding ◌+ℤ◌
outside_lem (x, y, z) = omega arith

abbrev edge : Cube
edge = vec (pos 2147483647) (pos 0) (pos 0)

edge_lem : ¬ Inside bounds edge
unfolding ◌+ℤ◌
edge_lem (x, y, z) = omega arith

set_impl_edge_example : set_impl number_blocks number_optics evaluate space edge 9 ≡ panic
set_impl_edge_example =
    set_impl_edge number_blocks number_optics evaluate space edge 9 bounds-IsValid (omega arith)
      edge_lem (ground arith)
