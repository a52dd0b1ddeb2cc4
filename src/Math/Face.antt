-- ===== src/Math/Face.antt =====
-- all-is-cubes/src/math/face.rs: `Face6`, a face of a cube or a unit vector along an axis, and
-- `Face7`, which adds `Within`, the zero vector. The methods of `Face7` stand in the child module
-- `Seven`, those of `FaceMap` in `Map`.
pub mod Seven
pub mod Map
pub mod Vectors
use all_is_cubes.Prelude.{ℕ, zero, suc, Bool, true, false, Option, none, some, List, [], ◌∷◌}

pub data Face6 : Type 0 where
  nx ny nz px py pz : Face6

abbrev pub all : List Face6
all = nx ∷ ny ∷ nz ∷ px ∷ py ∷ pz ∷ []

-- `face as u8`
unfoldable pub discriminant : Face6 → ℕ
discriminant nx = 1
discriminant ny = 2
discriminant nz = 3
discriminant px = 4
discriminant py = 5
discriminant pz = 6

unfoldable pub from_discriminant : ℕ → Option Face6
from_discriminant (suc zero) = some nx
from_discriminant (suc (suc zero)) = some ny
from_discriminant (suc (suc (suc zero))) = some nz
from_discriminant (suc (suc (suc (suc zero)))) = some px
from_discriminant (suc (suc (suc (suc (suc zero))))) = some py
from_discriminant (suc (suc (suc (suc (suc (suc zero)))))) = some pz
from_discriminant _ = none

unfoldable pub axis_number : Face6 → ℕ
axis_number nx = 0
axis_number ny = 1
axis_number nz = 2
axis_number px = 0
axis_number py = 1
axis_number pz = 2

unfoldable pub is_positive : Face6 → Bool
is_positive nx = false
is_positive ny = false
is_positive nz = false
is_positive px = true
is_positive py = true
is_positive pz = true

unfoldable pub is_negative : Face6 → Bool
is_negative nx = true
is_negative ny = true
is_negative nz = true
is_negative px = false
is_negative py = false
is_negative pz = false

unfoldable pub opposite : Face6 → Face6
opposite nx = px
opposite ny = py
opposite nz = pz
opposite px = nx
opposite py = ny
opposite pz = nz

-- The derived `PartialEq`.
unfoldable pub eqb : Face6 → Face6 → Bool
eqb nx nx = true
eqb ny ny = true
eqb nz nz = true
eqb px px = true
eqb py py = true
eqb pz pz = true
eqb _ _ = false
