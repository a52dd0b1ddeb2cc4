-- ===== src/Math/GridAab/Index.antt =====
-- `GridAab::index` (all-is-cubes/src/math/grid_aab.rs), with its wrapping arithmetic, against the
-- position of a cube in a box.

use all_is_cubes.Prelude.{
  none≢some, inr, ◌∙◌, sym, some-eq_some, inl, ◌⊎◌, true, refl, ◌||◌, if◌then◌else◌, ◌%◌, Bool, ap,
  none, some, ◌↔◌, arith, false, ◌≡◌, ◌≤◌, ◌^◌, ◌<◌, ◌+◌, ◌*◌, ℕ,
}
use all_is_cubes.Math.GridAab.{index, index_of, as_u32, beyond, GridAab}
use all_is_cubes.Prelude.Int.{
  int_cases, wrapping_sub, as_usize, InI32, as_u32, i32_of_u32, neg_part, ◌-ℤ◌, ◌+ℤ◌, ◌<ℤ◌,
  pos_part, ◌≤ℤ◌, ℤ, pos,
}
use all_is_cubes.Math.Vector.{GridVector, InRange, Cube}
use all_is_cubes.Math.GridAab.Volume.{IsAxis, IsValid, cubes}

abbrev pub Between : ℤ → ℤ → ℤ → Type 0
Between l s c = (l ≤ℤ c) × (c <ℤ l +ℤ s)

-- The cube lies in the box.
abbrev pub Inside : GridAab → Cube → Type 0
Inside b c =
    Between b.lower_bounds.x b.sizes.x c.x
    × Between b.lower_bounds.y b.sizes.y c.y
    × Between b.lower_bounds.z b.sizes.z c.z

-- The distance of a coordinate from the lower bound.
abbrev pub offset : ℤ → ℤ → ℕ
offset l c = pos_part (c -ℤ l)

-- The number of a cube in the order of `x`, then `y`, then `z`.
abbrev pub position : GridAab → Cube → ℕ
position b c =
    (offset b.lower_bounds.x c.x * pos_part b.sizes.y + offset b.lower_bounds.y c.y)
      * pos_part b.sizes.z
    + offset b.lower_bounds.z c.z

-- One axis of the test, on the difference `d` of the coordinates. The wrapped difference of a cube
-- below the box is at least the size, since the upper end of the box is an `i32`.
beyond_iff :
    (d s : ℤ)
    → pos 0 ≤ℤ s
    → pos_part s < 2 ^ 31
    → pos_part d < 2 ^ 32
    → neg_part d + pos_part s ≤ 2 ^ 32
    → (beyond (i32_of_u32 (as_u32 d)) s ≡ false) ↔ ((neg_part d ≡ 0) × (pos_part d < pos_part s))
beyond_iff d s h1 h2 h3 h4 = (λ h. ground arith, λ h. ground arith)

as_usize_wrap :
    (d : ℤ) → neg_part d ≡ 0 → pos_part d < 2 ^ 31 → as_usize (i32_of_u32 (as_u32 d)) ≡ pos_part d
as_usize_wrap d h1 h2 = ground arith

-- What is known of one axis of a valid box and of a coordinate.
pub record Axis (l s c : ℤ) : Type 0 where
  lower_in : InI32 l
  size_in : InI32 s
  axis : IsAxis l s
  cube_in : InI32 c

module _ (l s c : ℤ) (a : Axis l s c) where
  open a use {lower_in, size_in, axis, cube_in}

  axis_iff : (beyond (wrapping_sub c l) s ≡ false) ↔ Between l s c
  axis_iff =
      let test =
        beyond_iff (c -ℤ l) s axis.0 (omega int_cases) (omega int_cases) (omega int_cases) in
      (
        λ h. let t = test.0 h in (omega int_cases, omega int_cases),
        λ h. test.1 (omega int_cases, omega int_cases),
      )

  pub axis_offset :
      Between l s c
      → (as_usize (wrapping_sub c l) ≡ offset l c)
        × (offset l c < pos_part s)
        × (as_usize s ≡ pos_part s)
        × (pos_part s < 2 ^ 31)
  axis_offset h = (
    as_usize_wrap (c -ℤ l) (omega int_cases) (omega int_cases),
    omega int_cases,
    ground arith,
    omega int_cases,
  )

pub axes :
    (b : GridAab) (c : Cube)
    → IsValid b
    → InRange c
    → Axis b.lower_bounds.x b.sizes.x c.x
      × Axis b.lower_bounds.y b.sizes.y c.y
      × Axis b.lower_bounds.z b.sizes.z c.z
axes b c v r = (
  record { lower_in = v.lower_in.0; size_in = v.sizes_in.0; axis = v.x_axis; cube_in = r.0 },
  record { lower_in = v.lower_in.1; size_in = v.sizes_in.1; axis = v.y_axis; cube_in = r.1 },
  record { lower_in = v.lower_in.2; size_in = v.sizes_in.2; axis = v.z_axis; cube_in = r.2 },
)

place_lt : (x y z w h d : ℕ) → x < w → y < h → z < d → (x * h + y) * d + z < w * h * d
place_lt x y z w h d hx hy hz = let row : x * h + y < w * h = grind arith in grind arith

-- A cube of the box has a number below the volume.
pub position-lt :
    (b : GridAab) (c : Cube) → IsValid b → InRange c → Inside b c → position b c < cubes b.sizes
position-lt b c v r i =
    let (x, y, z) = axes b c v r in
    place_lt _ _ _ _ _ _ (axis_offset _ _ _ x i.0).1 (axis_offset _ _ _ y i.1).1
      (axis_offset _ _ _ z i.2).1

small_mod : (a : ℕ) → a < 2 ^ 64 → a % 2 ^ 64 ≡ a
small_mod a h = omega arith

refuses {ℓ} :
    {A : Type ℓ} (p q r : Bool) (a : A)
    → ¬ ((p ≡ false) × (q ≡ false) × (r ≡ false))
    → (if p || q || r then none else some a) ≡ none
refuses false false false a h = absurd (h (refl, refl, refl))
refuses false false true a h = refl
refuses false true r a h = refl
refuses true q r a h = refl

-- Without wrap-around `index_of` is the plain number.
index_of_exact :
    (d s : GridVector) (x y z h w k : ℕ)
    → (as_usize d.x ≡ x) × (as_usize d.y ≡ y) × (as_usize d.z ≡ z)
    → (as_usize s.y ≡ h) × (as_usize s.z ≡ k)
    → x < w
    → y < h
    → z < k
    → w * h * k < 2 ^ 64
    → index_of d s ≡ (x * h + y) * k + z
unfolding index_of
index_of_exact d s x y z h w k (ex, ey, ez) (eh, ek) hx hy hz small =
    let whole = place_lt x y z w h k hx hy hz in
    let inner : x * h + y ≤ (x * h + y) * k + z = grind arith in
    let first : x * h ≤ x * h + y = omega arith in
    rw (ex, ey, ez, eh, ek)
      (rw (
        small_mod (x * h) (omega arith),
        small_mod (x * h + y) (omega arith),
        small_mod ((x * h + y) * k) (omega arith),
        small_mod ((x * h + y) * k + z) (omega arith),
      ))

-- For a valid box and a cube of `i32` coordinates: a cube of the box has its number, and a cube
-- outside of it has none.
pub index_lem :
    (b : GridAab) (c : Cube)
    → IsValid b
    → InRange c
    → (Inside b c → index b c ≡ some (position b c)) × (¬ Inside b c → index b c ≡ none)
unfolding index
index_lem b c v r =
    let (x, y, z) = axes b c v r in
    (
      λ i.
          let (ex, lx, sx, _) = axis_offset _ _ _ x i.0 in
          let (ey, ly, sy, _) = axis_offset _ _ _ y i.1 in
          let (ez, lz, sz, _) = axis_offset _ _ _ z i.2 in
          rw ((axis_iff _ _ _ x).1 i.0, (axis_iff _ _ _ y).1 i.1, (axis_iff _ _ _ z).1 i.2)
            (ap some
              (index_of_exact _ b.sizes _ _ _ _ _ _ (ex, ey, ez) (sy, sz) lx ly lz v.volume_lt)),
      λ o.
          refuses _ _ _ _
            λ t. o ((axis_iff _ _ _ x).0 t.0, (axis_iff _ _ _ y).0 t.1, (axis_iff _ _ _ z).0 t.2),
    )

-- Whether a cube lies in a box can be decided.
pub Inside-cases : (b : GridAab) (c : Cube) → Inside b c ⊎ (¬ Inside b c)
Inside-cases b c = omega arith

-- For a valid box and `i32` coordinates, `index` gives a number exactly to the cubes of the box, and
-- that number is their position.
pub index_iff :
    (b : GridAab) (c : Cube) (n : ℕ)
    → IsValid b
    → InRange c
    → (index b c ≡ some n) ↔ (Inside b c × (n ≡ position b c))
index_iff b c n v r = elim (Inside-cases b c) [
  | inl i ↦
      let e = (index_lem b c v r).0 i in
      (λ h. (i, some-eq_some (sym h ∙ e)), λ h. e ∙ ap some (sym h.1))
  | inr o ↦
      let e = (index_lem b c v r).1 o in (λ h. absurd (none≢some (sym e ∙ h)), λ h. absurd (o h.0))
]
