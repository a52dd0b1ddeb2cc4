-- ===== src/Math/GridAab/Iter/Order.antt =====
-- `GridIter::next` (all-is-cubes/src/math/grid_aab.rs) against the numbering of the cubes.
use all_is_cubes.Prelude.Run.{i32-ret, ret, i32}
use all_is_cubes.Prelude.{
  refl, inr, some, inl, Bool-cases, ◌⊎◌, true, false, ◌≡◌, ℕ, ◌+◌, ◌*◌, arith,
}
use all_is_cubes.Prelude.Int.{◌≤ℤ◌, ◌<ℤ◌, pos_part, int_laws, int_cases, InI32, ℤ, pos, ◌+ℤ◌, leb_ℤ}
use all_is_cubes.Math.Vector.{vec, Cube, InRange}
use all_is_cubes.Math.GridAab.{GridAab}
use all_is_cubes.Math.GridAab.Volume.{IsValid, cubes, IsAxis}
use all_is_cubes.Math.GridAab.Index.{Inside, Between, position, offset}
use all_is_cubes.Math.GridAab.Iter.{next_row, next, GridIter}

-- The iterator over a box that is about to visit a cube.
abbrev pub at_cube : GridAab → Cube → GridIter
at_cube b c = record {
  x_range = (b.lower_bounds.x, b.lower_bounds.x +ℤ b.sizes.x);
  y_range = (b.lower_bounds.y, b.lower_bounds.y +ℤ b.sizes.y);
  z_range = (b.lower_bounds.z, b.lower_bounds.z +ℤ b.sizes.z);
  cube = c;
}

-- The cube `d` has the next number after `c`, or `c` has the last one and `d` is past the end.
abbrev pub Follows : GridAab → Cube → Cube → Type 0
Follows b c d =
    (Inside b d × (position b d ≡ position b c + 1))
    ⊎ ((position b c + 1 ≡ cubes b.sizes) × ((b.lower_bounds.x +ℤ b.sizes.x) ≤ℤ d.x))

step_in : (l s c : ℤ) → Between l s c → IsAxis l s → InI32 l → InI32 (c +ℤ pos 1)
step_in l s c h a k = omega int_laws

between_in : (l s c : ℤ) → Between l s c → IsAxis l s → InI32 l → InI32 c
between_in l s c h a k = omega int_laws

pub Inside-InRange : (b : GridAab) (c : Cube) → IsValid b → Inside b c → InRange c
Inside-InRange b c v i = (
  between_in _ _ _ i.0 v.x_axis v.lower_in.0,
  between_in _ _ _ i.1 v.y_axis v.lower_in.1,
  between_in _ _ _ i.2 v.z_axis v.lower_in.2,
)

step_offset : (l s c : ℤ) → Between l s c → offset l (c +ℤ pos 1) ≡ offset l c + 1
step_offset l s c h = omega int_cases

start_offset : (l : ℤ) → offset l l ≡ 0
start_offset l = omega int_cases

last_offset :
    (l s c : ℤ) → Between l s c → leb_ℤ (l +ℤ s) (c +ℤ pos 1) ≡ true → offset l c + 1 ≡ pos_part s
last_offset l s c h e = let le : l +ℤ s ≤ℤ c +ℤ pos 1 = ground arith in omega int_cases

pub step_Between :
    (l s c : ℤ) → Between l s c → leb_ℤ (l +ℤ s) (c +ℤ pos 1) ≡ false → Between l s (c +ℤ pos 1)
step_Between l s c h e = let lt : c +ℤ pos 1 <ℤ l +ℤ s = ground arith in omega int_laws

pub start_Between : (l s c : ℤ) → Between l s c → Between l s l
start_Between l s c h = omega int_laws

carry : (q k z : ℕ) → z + 1 ≡ k → (q + 1) * k + 0 ≡ q * k + z + 1
carry q k z h = grind arith

pub not_ended : (l s c : ℤ) → Between l s c → leb_ℤ (l +ℤ s) c ≡ false
not_ended l s c h = ground arith

pub ended : (e c : ℤ) → leb_ℤ e c ≡ true → e ≤ℤ c
ended e c h = ground arith

module _ (b : GridAab) (c : Cube) (v : IsValid b) (i : Inside b c) where
  abbrev pub Steps : Cube → Type 0
  Steps d = (next (at_cube b c) ≡ ret (some c, at_cube b d)) × Follows b c d

  abbrev pub l : Cube
  l = b.lower_bounds

  running : leb_ℤ (l.x +ℤ b.sizes.x) c.x ≡ false
  running = not_ended l.x b.sizes.x c.x i.0

  z_step : i32 (c.z +ℤ pos 1) ≡ ret (c.z +ℤ pos 1)
  z_step = i32-ret _ (step_in l.z b.sizes.z c.z i.2 v.z_axis v.lower_in.2)

  y_step : i32 (c.y +ℤ pos 1) ≡ ret (c.y +ℤ pos 1)
  y_step = i32-ret _ (step_in l.y b.sizes.y c.y i.1 v.y_axis v.lower_in.1)

  x_step : i32 (c.x +ℤ pos 1) ≡ ret (c.x +ℤ pos 1)
  x_step = i32-ret _ (step_in l.x b.sizes.x c.x i.0 v.x_axis v.lower_in.0)

  pub within_row :
      leb_ℤ (l.z +ℤ b.sizes.z) (c.z +ℤ pos 1) ≡ false → Steps (vec c.x c.y (c.z +ℤ pos 1))
  unfolding next
  within_row e = (
    rw (running, z_step, e) refl,
    inl ((i.0, i.1, step_Between _ _ _ i.2 e), rw (step_offset _ _ _ i.2) (omega arith)),
  )

  pub new_row :
      leb_ℤ (l.z +ℤ b.sizes.z) (c.z +ℤ pos 1) ≡ true
      → leb_ℤ (l.y +ℤ b.sizes.y) (c.y +ℤ pos 1) ≡ false
      → Steps (vec c.x (c.y +ℤ pos 1) l.z)
  unfolding next next_row
  new_row e f = (
    rw (running, z_step, e, y_step, f) refl,
    inl (
      (i.0, step_Between _ _ _ i.1 f, start_Between _ _ _ i.2),
      row_position (offset l.x c.x) (offset l.y c.y) (offset l.z c.z) _ _ _ _
          (step_offset _ _ _ i.1) (start_offset l.z) (last_offset _ _ _ i.2 e),
    ),
  )
    where
      row_position :
          (x y z h k y' z' : ℕ)
          → y' ≡ y + 1
          → z' ≡ 0
          → z + 1 ≡ k
          → (x * h + y') * k + z' ≡ (x * h + y) * k + z + 1
      row_position x y z h k y' z' ey ez last =
          rw (ey, ez) (grind (arith, carry (x * h + y) k z last))

  pub new_plane :
      leb_ℤ (l.z +ℤ b.sizes.z) (c.z +ℤ pos 1) ≡ true
      → leb_ℤ (l.y +ℤ b.sizes.y) (c.y +ℤ pos 1) ≡ true
      → Steps (vec (c.x +ℤ pos 1) l.y l.z)
  unfolding next next_row
  new_plane e f = (
    rw (running, z_step, e, y_step, f, x_step) refl,
    elim (Bool-cases (leb_ℤ (l.x +ℤ b.sizes.x) (c.x +ℤ pos 1))) [
      | inr g ↦ inl (
        (step_Between _ _ _ i.0 g, start_Between _ _ _ i.1, start_Between _ _ _ i.2),
        plane_position (offset l.x c.x) (offset l.y c.y) (offset l.z c.z) _ _ _ _ _
            (step_offset _ _ _ i.0) (start_offset l.y) (start_offset l.z) (last_offset _ _ _ i.1 f)
            (last_offset _ _ _ i.2 e),
      )
      | inl g ↦ inr (
        last_position (offset l.x c.x) (offset l.y c.y) (offset l.z c.z) _ _ _
            (last_offset _ _ _ i.0 g) (last_offset _ _ _ i.1 f) (last_offset _ _ _ i.2 e),
        ended (l.x +ℤ b.sizes.x) (c.x +ℤ pos 1) g,
      )
    ],
  )
    where
      plane_position :
          (x y z h k x' y' z' : ℕ)
          → x' ≡ x + 1
          → y' ≡ 0
          → z' ≡ 0
          → y + 1 ≡ h
          → z + 1 ≡ k
          → (x' * h + y') * k + z' ≡ (x * h + y) * k + z + 1
      plane_position x y z h k x' y' z' ex ey ez last_y last_z =
          rw (ex, ey, ez) (grind (arith, carry x h y last_y, carry (x * h + y) k z last_z))

      last_position :
          (x y z w h k : ℕ)
          → x + 1 ≡ w
          → y + 1 ≡ h
          → z + 1 ≡ k
          → (x * h + y) * k + z + 1 ≡ w * h * k
      last_position x y z w h k ex ey ez =
          rw (← ex) (grind (arith, carry x h y ey, carry (x * h + y) k z ez))

-- At a cube of a valid box `next` does not panic and returns that cube. The iterator then stands at
-- the cube with the next number, or the number was the last one and it stands past the end.
pub next-Follows :
    (b : GridAab) (c : Cube)
    → IsValid b
    → Inside b c
    → (d : Cube) × (next (at_cube b c) ≡ ret (some c, at_cube b d)) × Follows b c d
next-Follows b c v i = elim (Bool-cases (leb_ℤ (b.lower_bounds.z +ℤ b.sizes.z) (c.z +ℤ pos 1))) [
  | inr e ↦ let s = within_row b c v i e in (_, s.0, s.1)
  | inl e ↦ elim (Bool-cases (leb_ℤ (b.lower_bounds.y +ℤ b.sizes.y) (c.y +ℤ pos 1))) [
    | inr f ↦ let s = new_row b c v i e f in (_, s.0, s.1)
    | inl f ↦ let s = new_plane b c v i e f in (_, s.0, s.1)
  ]
]
