-- ===== src/Math/Face/Seven.antt =====
-- all-is-cubes/src/math/face.rs: the type `Face7`, its methods, and the methods of `Face6` that
-- go through it.
use all_is_cubes.Prelude.{ℕ, zero, suc, Bool, true, false, Option, none, some, if◌then◌else◌}
use all_is_cubes.Prelude.{List, [], ◌∷◌}
use all_is_cubes.Prelude.Int.{ℤ, pos, negsuc, ◌-ℤ◌}
use all_is_cubes.Prelude.Run.{Run, ret, i32}
use all_is_cubes.Math.Vector.{GridVector, Cube, vec, eqb_vec, add}
use all_is_cubes.Math.Face.{Face6}

pub data Face7 : Type 0 where
  within nx ny nz px py pz : Face7

abbrev pub all : List Face7
all = within ∷ nx ∷ ny ∷ nz ∷ px ∷ py ∷ pz ∷ []

unfoldable pub discriminant : Face7 → ℕ
discriminant within = 0
discriminant nx = 1
discriminant ny = 2
discriminant nz = 3
discriminant px = 4
discriminant py = 5
discriminant pz = 6

unfoldable pub from_discriminant : ℕ → Option Face7
from_discriminant zero = some within
from_discriminant (suc zero) = some nx
from_discriminant (suc (suc zero)) = some ny
from_discriminant (suc (suc (suc zero))) = some nz
from_discriminant (suc (suc (suc (suc zero)))) = some px
from_discriminant (suc (suc (suc (suc (suc zero))))) = some py
from_discriminant (suc (suc (suc (suc (suc (suc zero)))))) = some pz
from_discriminant _ = none

unfoldable pub axis_number : Face7 → Option ℕ
axis_number within = none
axis_number nx = some 0
axis_number ny = some 1
axis_number nz = some 2
axis_number px = some 0
axis_number py = some 1
axis_number pz = some 2

unfoldable pub is_positive : Face7 → Bool
is_positive within = false
is_positive nx = false
is_positive ny = false
is_positive nz = false
is_positive px = true
is_positive py = true
is_positive pz = true

unfoldable pub is_negative : Face7 → Bool
is_negative within = false
is_negative nx = true
is_negative ny = true
is_negative nz = true
is_negative px = false
is_negative py = false
is_negative pz = false

unfoldable pub opposite : Face7 → Face7
opposite within = within
opposite nx = px
opposite ny = py
opposite nz = pz
opposite px = nx
opposite py = ny
opposite pz = nz

-- The arms for equal and for opposite faces stand together in the source.
unfoldable pub cross : Face7 → Face7 → Face7
cross within _ = within
cross _ within = within
cross nx nx = within
cross ny ny = within
cross nz nz = within
cross px px = within
cross py py = within
cross pz pz = within
cross nx px = within
cross ny py = within
cross nz pz = within
cross px nx = within
cross py ny = within
cross pz nz = within
cross nx ny = pz
cross nx nz = ny
cross nx py = nz
cross nx pz = py
cross ny nx = nz
cross ny nz = px
cross ny px = pz
cross ny pz = nx
cross nz nx = py
cross nz ny = nx
cross nz px = ny
cross nz py = px
cross px ny = nz
cross px nz = py
cross px py = pz
cross px pz = ny
cross py nx = pz
cross py nz = nx
cross py px = nz
cross py pz = px
cross pz nx = ny
cross pz ny = px
cross pz px = py
cross pz py = nx

unfoldable pub normal_vector : Face7 → GridVector
normal_vector within = vec (pos 0) (pos 0) (pos 0)
normal_vector nx = vec (negsuc 0) (pos 0) (pos 0)
normal_vector ny = vec (pos 0) (negsuc 0) (pos 0)
normal_vector nz = vec (pos 0) (pos 0) (negsuc 0)
normal_vector px = vec (pos 1) (pos 0) (pos 0)
normal_vector py = vec (pos 0) (pos 1) (pos 0)
normal_vector pz = vec (pos 0) (pos 0) (pos 1)

-- The dot product at `i32`: a negation can overflow.
unfoldable pub dot : Face7 → GridVector → Run ℤ
dot within v = ret (pos 0)
dot nx v = i32 (pos 0 -ℤ v.x)
dot ny v = i32 (pos 0 -ℤ v.y)
dot nz v = i32 (pos 0 -ℤ v.z)
dot px v = ret v.x
dot py v = ret v.y
dot pz v = ret v.z

-- `Face7::try_from(GridVector)`; the error returns the vector.
unfoldable pub face7_try_from : GridVector → Option Face7
face7_try_from v =
    if eqb_vec v (vec (pos 0) (pos 0) (pos 0))
    then some within
    else if eqb_vec v (vec (pos 1) (pos 0) (pos 0))
    then some px
    else if eqb_vec v (vec (pos 0) (pos 1) (pos 0))
    then some py
    else if eqb_vec v (vec (pos 0) (pos 0) (pos 1))
    then some pz
    else if eqb_vec v (vec (negsuc 0) (pos 0) (pos 0))
    then some nx
    else if eqb_vec v (vec (pos 0) (negsuc 0) (pos 0))
    then some ny
    else if eqb_vec v (vec (pos 0) (pos 0) (negsuc 0))
    then some nz
    else none

-- `Face6::into7` and `Face7::from(Face6)`
unfoldable pub into7 : Face6 → Face7
into7 Face6.nx = nx
into7 Face6.ny = ny
into7 Face6.nz = nz
into7 Face6.px = px
into7 Face6.py = py
into7 Face6.pz = pz

-- `Face6::try_from(Face7)`; the error is `Faceless`.
unfoldable pub face6_try_from : Face7 → Option Face6
face6_try_from within = none
face6_try_from nx = some Face6.nx
face6_try_from ny = some Face6.ny
face6_try_from nz = some Face6.nz
face6_try_from px = some Face6.px
face6_try_from py = some Face6.py
face6_try_from pz = some Face6.pz

abbrev and_then {ℓ κ} : {A : Type ℓ} {B : Type κ} → Option A → (A → Option B) → Option B
and_then none f = none
and_then (some a) f = f a

-- `Face6::try_from(GridVector)`
unfoldable pub face6_of_vector : GridVector → Option Face6
unfolding face7_try_from face6_try_from
face6_of_vector v = and_then (face7_try_from v) face6_try_from

-- The methods of `Face6` that delegate.
unfoldable pub face6_cross : Face6 → Face6 → Face7
unfolding cross into7
face6_cross f g = cross (into7 f) (into7 g)

unfoldable pub face6_normal_vector : Face6 → GridVector
unfolding normal_vector into7
face6_normal_vector f = normal_vector (into7 f)

unfoldable pub face6_dot : Face6 → GridVector → Run ℤ
unfolding dot into7
face6_dot f v = dot (into7 f) v

-- `CubeFace`, with `adjacent`.
pub record CubeFace : Type 0 where
  pub cube : Cube
  pub face : Face7

unfoldable pub adjacent : CubeFace → Run Cube
unfolding normal_vector add
adjacent c = add c.cube (normal_vector c.face)
