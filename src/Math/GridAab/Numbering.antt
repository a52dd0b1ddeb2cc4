-- ===== src/Math/GridAab/Numbering.antt =====
-- `GridAab::index` (all-is-cubes/src/math/grid_aab.rs) on two cubes of one box.
use all_is_cubes.Math.GridAab.Volume.{IsValid}
use all_is_cubes.Prelude.Int.{int_cases, ◌≤ℤ◌, ℤ}
use all_is_cubes.Prelude.{◌∙◌, sym, some, arith, ◌+◌, ◌*◌, ◌≡◌, ◌<◌, ℕ}
use all_is_cubes.Math.Vector.{InRange, Cube}
use all_is_cubes.Math.GridAab.{index, GridAab}
use all_is_cubes.Math.GridAab.Index.{index_iff, axis_offset, axes, position, offset, Inside}

digit_lt : (q z q' z' d : ℕ) → q < q' → z < d → q * d + z < q' * d + z'
digit_lt q z q' z' d h hz = grind arith

digit_inj : (q z q' z' d : ℕ) → z < d → z' < d → q * d + z ≡ q' * d + z' → (q ≡ q') × (z ≡ z')
digit_inj q z q' z' d hz hz' e = ground (arith, digit_lt q z q' z' d, digit_lt q' z' q z d)

place_inj :
    (x y z x' y' z' h d : ℕ)
    → y < h
    → z < d
    → y' < h
    → z' < d
    → (x * h + y) * d + z ≡ (x' * h + y') * d + z'
    → (x ≡ x') × (y ≡ y') × (z ≡ z')
place_inj x y z x' y' z' h d hy hz hy' hz' e =
    let (row, ez) = digit_inj (x * h + y) z (x' * h + y') z' d hz hz' e in
    let (ex, ey) = digit_inj x y x' y' h hy hy' row in (ex, ey, ez)

same_coordinate : (l c d : ℤ) → l ≤ℤ c → l ≤ℤ d → offset l c ≡ offset l d → c ≡ d
same_coordinate l c d h k e = omega int_cases

cube_eq : (c d : Cube) → c.x ≡ d.x → c.y ≡ d.y → c.z ≡ d.z → c ≡ d
cube_eq c d ex ey ez = λ i. record { x = ex i; y = ey i; z = ez i }

-- In a valid box the position of a cube determines the cube.
pub position_inj :
    (b : GridAab) (c d : Cube)
    → IsValid b
    → InRange c
    → InRange d
    → Inside b c
    → Inside b d
    → position b c ≡ position b d
    → c ≡ d
position_inj b c d v r s i j e =
    let (_, y, z) = axes b c v r in
    let (_, y', z') = axes b d v s in
    let (ex, ey, ez) =
      place_inj _ _ _ _ _ _ _ _ (axis_offset _ _ _ y i.1).1 (axis_offset _ _ _ z i.2).1
        (axis_offset _ _ _ y' j.1).1 (axis_offset _ _ _ z' j.2).1 e in
    cube_eq c d (same_coordinate b.lower_bounds.x c.x d.x i.0.0 j.0.0 ex)
      (same_coordinate b.lower_bounds.y c.y d.y i.1.0 j.1.0 ey)
      (same_coordinate b.lower_bounds.z c.z d.z i.2.0 j.2.0 ez)

-- `index` of a valid box never gives one number to two cubes of `i32` coordinates.
pub index_inj :
    (b : GridAab) (c d : Cube) (n : ℕ)
    → IsValid b
    → InRange c
    → InRange d
    → index b c ≡ some n
    → index b d ≡ some n
    → c ≡ d
index_inj b c d n v r s h k =
    let (i, ei) = (index_iff b c n v r).0 h in
    let (j, ej) = (index_iff b d n v s).0 k in position_inj b c d v r s i j (sym ei ∙ ej)
