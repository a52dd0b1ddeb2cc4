-- ===== src/Math/GridAab/Volume.antt =====
-- The checked constructors of `GridAab` (all-is-cubes/src/math/grid_aab.rs) and the invariant of the
-- type.
use all_is_cubes.Prelude.Run.{ok, checked_i32}
use all_is_cubes.Prelude.{
  refl, inr, inl, Option-cases, some, ◌≤◌, ◌↔◌, none, arith, ◌≡◌, ◌^◌, ◌*◌, ◌<◌, ℕ,
}
use all_is_cubes.Math.GridAab.{
  some, ok, checked_from_lower_size, none, checked_mul, checked_i32, checked_volume_helper,
  check_axis, GridAab,
}
use all_is_cubes.Prelude.Int.{◌+ℤ◌, pos_part, InI32, ◌≤ℤ◌, ℤ, pos}
use all_is_cubes.Math.Vector.{GridPoint, GridVector, InRange}

-- One axis: the size is not negative, and both ends are `i32`.
abbrev pub IsAxis : ℤ → ℤ → Type 0
IsAxis lower size = (pos 0 ≤ℤ size) × InI32 (lower +ℤ size)

-- The number of cubes.
abbrev pub cubes : GridVector → ℕ
cubes s = pos_part s.x * pos_part s.y * pos_part s.z

pub record IsValid (b : GridAab) : Type 0 where
  pub lower_in : InRange b.lower_bounds
  pub sizes_in : InRange b.sizes
  pub x_axis : IsAxis b.lower_bounds.x b.sizes.x
  pub y_axis : IsAxis b.lower_bounds.y b.sizes.y
  pub z_axis : IsAxis b.lower_bounds.z b.sizes.z
  pub volume_lt : cubes b.sizes < 2 ^ 64

check_axis_iff : (i : ℕ) (l s : ℤ) → (check_axis i l s ≡ none) ↔ IsAxis l s
unfolding check_axis checked_i32
check_axis_iff i l s = (λ h. ground arith, λ h. ground arith)

area_mono : (a c b : ℕ) → a ≤ c → a * b ≤ c * b
area_mono a c b h = grind arith

small_area : (a b : ℕ) → a < 2 ^ 31 → b < 2 ^ 31 → a * b < 2 ^ 62
small_area a b h k = grind (arith, area_mono a (2 ^ 31) b (omega arith))

volume-some :
    (s : GridVector)
    → InRange s
    → pos 0 ≤ℤ s.x
    → pos 0 ≤ℤ s.y
    → pos 0 ≤ℤ s.z
    → checked_volume_helper s ≡ checked_mul (pos_part s.x * pos_part s.y) (pos_part s.z)
unfolding checked_volume_helper checked_mul
volume-some s r hx hy hz = ground (arith, small_area (pos_part s.x) (pos_part s.y))

-- For sizes that are not negative `checked_volume_helper` gives the number of cubes, exactly where
-- that number is a usize.
pub checked_volume_helper_iff :
    (s : GridVector) (n : ℕ)
    → InRange s
    → pos 0 ≤ℤ s.x
    → pos 0 ≤ℤ s.y
    → pos 0 ≤ℤ s.z
    → (checked_volume_helper s ≡ some n) ↔ ((n ≡ cubes s) × (cubes s < 2 ^ 64))
unfolding checked_mul
checked_volume_helper_iff s n r hx hy hz =
    rw (volume-some s r hx hy hz) (λ h. ground arith, λ h. ground arith)

module _ (lower : GridPoint) (sizes : GridVector) where
  abbrev boxed : GridAab
  boxed = record { lower_bounds = lower; sizes = sizes }

  -- What the four checks say, as one case split.
  checks_pass :
      (b : GridAab)
      → checked_from_lower_size lower sizes ≡ ok b
      → (b ≡ boxed)
        × (check_axis 0 lower.x sizes.x ≡ none)
        × (check_axis 1 lower.y sizes.y ≡ none)
        × (check_axis 2 lower.z sizes.z ≡ none)
        × (n : ℕ) × (checked_volume_helper sizes ≡ some n)
  unfolding checked_from_lower_size
  checks_pass b h = elim (Option-cases (checked_volume_helper sizes)) [
    | inl no_volume ↦ absurd (ground arith)
    | inr (n, e) ↦ (ground arith, ground arith, ground arith, ground arith, n, e)
  ]

  passes :
      check_axis 0 lower.x sizes.x ≡ none
      → check_axis 1 lower.y sizes.y ≡ none
      → check_axis 2 lower.z sizes.z ≡ none
      → (n : ℕ) → checked_volume_helper sizes ≡ some n
      → checked_from_lower_size lower sizes ≡ ok boxed
  unfolding checked_from_lower_size
  passes x y z n e = ground arith

-- The checked constructor accepts exactly the valid boxes, and builds the box that it is asked for.
-- (The arguments are vectors of `i32`.)
pub checked_from_lower_size_iff :
    (lower : GridPoint) (sizes : GridVector) (b : GridAab)
    → InRange lower
    → InRange sizes
    → (checked_from_lower_size lower sizes ≡ ok b)
      ↔ ((b ≡ record { lower_bounds = lower; sizes = sizes }) × IsValid b)
checked_from_lower_size_iff lower sizes b lr sr = (there, back)
  where
    there :
        checked_from_lower_size lower sizes ≡ ok b
        → (b ≡ record { lower_bounds = lower; sizes = sizes }) × IsValid b
    there h =
        let (e, x, y, z, n, v) = checks_pass lower sizes b h in
        let ax = (check_axis_iff 0 lower.x sizes.x).0 x in
        let ay = (check_axis_iff 1 lower.y sizes.y).0 y in
        let az = (check_axis_iff 2 lower.z sizes.z).0 z in
        let vol = (checked_volume_helper_iff sizes n sr ax.0 ay.0 az.0).0 v in
        (
          e,
          rw e (record {
            lower_in = lr;
            sizes_in = sr;
            x_axis = ax;
            y_axis = ay;
            z_axis = az;
            volume_lt = vol.1;
          }),
        )

    back :
        (b ≡ record { lower_bounds = lower; sizes = sizes }) × IsValid b
        → checked_from_lower_size lower sizes ≡ ok b
    back (e, v) =
        let w = rw e at v in
        rw e (
          passes lower sizes ((check_axis_iff 0 lower.x sizes.x).1 w.x_axis)
            ((check_axis_iff 1 lower.y sizes.y).1 w.y_axis)
            ((check_axis_iff 2 lower.z sizes.z).1 w.z_axis) (cubes sizes)
            ((checked_volume_helper_iff sizes (cubes sizes) sr w.x_axis.0 w.y_axis.0 w.z_axis.0).1
              (refl, w.volume_lt)))
