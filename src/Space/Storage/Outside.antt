-- ===== src/Space/Storage/Outside.antt =====
-- `Space::set` (all-is-cubes/src/space.rs) at a cube that is not in the bounds.
use all_is_cubes.Math.GridAab.Index.{index_lem, Inside}
use all_is_cubes.Math.GridAab.Volume.{checked_from_lower_size_iff, IsValid}
use all_is_cubes.Prelude.Run.{err, ret, panic, ok}
use all_is_cubes.Space.Storage.{out_of_bounds, State, set_impl, Optics}
use all_is_cubes.Prelude.Int.{
  +ℤ_parts, neg_part, pos_part, eqb_ℤ_iff, eqb_ℤ, int_laws, ◌+ℤ◌, pos, InI32, ℤ,
}
use all_is_cubes.Math.Vector.{vec, InRange, GridVector, Cube}
use all_is_cubes.Math.GridAab.{GridOverflowError, GridAab}
use all_is_cubes.Prelude.{ap, ◌-◌, Bool-cases, ◌⊎◌, ◌≢◌, ◌^◌, ◌≡◌, arith, inl, inr, refl}
use all_is_cubes.Math.GridAab
use all_is_cubes.Space.Palette
use all_is_cubes.Space.Palette.{Blocks}

abbrev unit_size : GridVector
unit_size = vec (pos 1) (pos 1) (pos 1)

-- The largest `i32`.
abbrev pub max_coordinate : ℤ
max_coordinate = pos (2 ^ 31 - 1)

-- Some coordinate is the largest `i32`.
abbrev pub OnEdge : Cube → Type 0
OnEdge c = (c.x ≡ max_coordinate) ⊎ (c.y ≡ max_coordinate) ⊎ (c.z ≡ max_coordinate)

unit_in : InRange unit_size
unit_in = omega arith

one_more : (a : ℤ) → InI32 a → a ≢ max_coordinate → InI32 (a +ℤ pos 1)
one_more a h ne = elim (Bool-cases (eqb_ℤ a max_coordinate)) [
  | inl e ↦ absurd (ne ((eqb_ℤ_iff a max_coordinate).0 e))
  | inr e ↦ (ground (arith, +ℤ_parts a (pos 1)), ground (arith, +ℤ_parts a (pos 1)))
]

edge_overflows : (a : ℤ) → a ≡ max_coordinate → ¬ InI32 (a +ℤ pos 1)
edge_overflows a e h = omega (int_laws, ap pos_part e, ap neg_part e)

pub single_cube_inner :
    (c : Cube)
    → InRange c
    → ¬ OnEdge c
    → GridAab.single_cube c ≡ ret (record { lower_bounds = c; sizes = vec (pos 1) (pos 1) (pos 1) })
unfolding GridAab.single_cube GridAab.from_lower_size
single_cube_inner c r inner = rw (
    (checked_from_lower_size_iff c unit_size (record { lower_bounds = c; sizes = unit_size }) r
        unit_in).1
      (
        refl,
        record {
          lower_in = r;
          sizes_in = unit_in;
          x_axis = (omega arith, one_more c.x r.0 (λ e. inner (inl e)));
          y_axis = (omega arith, one_more c.y r.1 (λ e. inner (inr (inl e))));
          z_axis = (omega arith, one_more c.z r.2 (λ e. inner (inr (inr e))));
          volume_lt = omega arith;
        },
      ))

Fallible-cases :
    (f : GridAab.Fallible) → ((b : GridAab) × (f ≡ ok b)) ⊎ ((e : GridOverflowError) × (f ≡ err e))
Fallible-cases (ok b) = inl (b, refl)
Fallible-cases (err e) = inr (e, refl)

pub single_cube_edge : (c : Cube) → InRange c → OnEdge c → GridAab.single_cube c ≡ panic
unfolding GridAab.single_cube GridAab.from_lower_size
single_cube_edge c r edge = elim (Fallible-cases (GridAab.checked_from_lower_size c unit_size)) [
  | inr (e, h) ↦ rw h
  | inl (b, h) ↦
      let (eb, v) = (checked_from_lower_size_iff c unit_size b r unit_in).0 h in
      let w = rw eb at v in
      absurd (elim edge [
        | inl x ↦ edge_overflows c.x x w.x_axis.1
        | inr yz ↦ elim yz [
          | inl y ↦ edge_overflows c.y y w.y_axis.1
          | inr z ↦ edge_overflows c.z z w.z_axis.1
        ]
      ])
]

module _ (B : Blocks) (O : Optics B.Evaluated) where
  -- Outside of the bounds of a valid space `set` reports the cube and the bounds and changes nothing,
  -- if no coordinate of the cube is the largest `i32`.
  pub set_impl_outside :
      (ev : Palette.Evaluator B) (s : State B O) (c : Cube) (b : B.Block)
      → IsValid s.bounds
      → InRange c
      → ¬ Inside s.bounds c
      → ¬ OnEdge c
      → set_impl B O ev s c b
        ≡ ret (record {
          state = s;
          result = err (
              out_of_bounds
                (record { lower_bounds = c; sizes = vec (pos 1) (pos 1) (pos 1) })
                s.bounds);
        })
  unfolding set_impl
  set_impl_outside ev s c b v r o inner =
      let e = (index_lem s.bounds c v r).1 o in rw (e, single_cube_inner c r inner, set_impl)

  -- Outside of the bounds of a valid space `set` panics, if a coordinate of the cube is the largest
  -- `i32`.
  pub set_impl_edge :
      (ev : Palette.Evaluator B) (s : State B O) (c : Cube) (b : B.Block)
      → IsValid s.bounds
      → InRange c
      → ¬ Inside s.bounds c
      → OnEdge c
      → set_impl B O ev s c b ≡ panic
  unfolding set_impl
  set_impl_edge ev s c b v r o edge =
      let e = (index_lem s.bounds c v r).1 o in rw (e, single_cube_edge c r edge, set_impl)
