-- ===== src/Math/Vector.antt =====
-- The integer vectors and points of all-is-cubes/src/math.rs: `GridCoordinate` is `i32`;
-- `GridVector` and `GridPoint` are the vector types of the package cgmath at it, and `Cube`
-- (all-is-cubes/src/math/cube.rs) has the same three fields; the conversions between them keep
-- the fields. Sums and products panic where a component leaves `i32`.
use all_is_cubes.Prelude.{◌≡◌, true, ◌↔◌, arith, Bool, ◌&&◌}
use all_is_cubes.Prelude.Int.{ℤ, pos, ◌+ℤ◌, ◌-ℤ◌, ◌*ℤ◌, InI32, eqb_ℤ, eqb_ℤ_iff}
use all_is_cubes.Prelude.Run.{i32-ret, Run, ret, ◌>>=◌, i32}

pub record Vector3 {ℓ} (A : Type ℓ) : Type ℓ where
  pub x : A
  pub y : A
  pub z : A

abbrev pub vec {ℓ} : {A : Type ℓ} → A → A → A → Vector3 A
vec a b c = record { x = a; y = b; z = c }

abbrev pub GridVector : Type 0
GridVector = Vector3 ℤ

abbrev pub GridPoint : Type 0
GridPoint = Vector3 ℤ

abbrev pub Cube : Type 0
Cube = Vector3 ℤ

abbrev pub InRange : GridVector → Type 0
InRange v = InI32 v.x × InI32 v.y × InI32 v.z

unfoldable pub eqb_vec : GridVector → GridVector → Bool
eqb_vec v w = eqb_ℤ v.x w.x && eqb_ℤ v.y w.y && eqb_ℤ v.z w.z

-- The exact operations.
abbrev pub add_vec : GridVector → GridVector → GridVector
add_vec v w = vec (v.x +ℤ w.x) (v.y +ℤ w.y) (v.z +ℤ w.z)

abbrev pub sub_vec : GridVector → GridVector → GridVector
sub_vec v w = vec (v.x -ℤ w.x) (v.y -ℤ w.y) (v.z -ℤ w.z)

-- `i32` results for the three components, in their order.
abbrev pub run_vec : GridVector → Run GridVector
run_vec v = do a ← i32 v.x; b ← i32 v.y; c ← i32 v.z; ret (vec a b c)

-- `v + w`, `v - w`, `v * k`, `-v`
unfoldable pub add : GridVector → GridVector → Run GridVector
add v w = run_vec (add_vec v w)

unfoldable pub sub : GridVector → GridVector → Run GridVector
sub v w = run_vec (sub_vec v w)

unfoldable pub scale : GridVector → ℤ → Run GridVector
scale v k = run_vec (vec (v.x *ℤ k) (v.y *ℤ k) (v.z *ℤ k))

unfoldable pub neg : GridVector → Run GridVector
neg v = run_vec (vec (pos 0 -ℤ v.x) (pos 0 -ℤ v.y) (pos 0 -ℤ v.z))

pub vec_eq {ℓ} : {A : Type ℓ} {v w : Vector3 A} → v.x ≡ w.x → v.y ≡ w.y → v.z ≡ w.z → v ≡ w
vec_eq x y z = cc

pub eqb_vec_iff : (v w : GridVector) → (eqb_vec v w ≡ true) ↔ (v ≡ w)
unfolding eqb_vec
eqb_vec_iff v w = (
  λ h. ground (arith, eqb_ℤ_iff v.x w.x, eqb_ℤ_iff v.y w.y, eqb_ℤ_iff v.z w.z),
  λ h. rw h (ground arith),
)

pub run_vec-ret : (v : GridVector) → InRange v → run_vec v ≡ ret v
run_vec-ret v h = rw (i32-ret v.x h.0, i32-ret v.y h.1, i32-ret v.z h.2)

pub run_vec-eq_ret : (v : GridVector) {w : GridVector} → run_vec v ≡ ret w → (w ≡ v) × InRange v
unfolding i32
run_vec-eq_ret v h = ground arith
