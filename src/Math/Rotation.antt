-- ===== src/Math/Rotation.antt =====
-- all-is-cubes/src/math/rotation.rs: `GridRotation`, the 48 rotations and reflections of the grid.
-- A name lists the unit vectors by which x, y and z are multiplied; the source writes `RXyZ` for
-- `px_ny_pz`.
pub mod Basis
pub mod Operations
pub mod Checks
pub mod Bases
pub mod Group
pub mod Facing
use all_is_cubes.Prelude.{[], ◌∷◌, ℕ, List}

pub data GridRotation : Type 0 where
  px_py_pz px_py_nz px_ny_pz px_ny_nz nx_py_pz nx_py_nz nx_ny_pz nx_ny_nz : GridRotation
  px_pz_py px_pz_ny px_nz_py px_nz_ny nx_pz_py nx_pz_ny nx_nz_py nx_nz_ny : GridRotation
  py_px_pz py_px_nz py_nx_pz py_nx_nz ny_px_pz ny_px_nz ny_nx_pz ny_nx_nz : GridRotation
  py_pz_px py_pz_nx py_nz_px py_nz_nx ny_pz_px ny_pz_nx ny_nz_px ny_nz_nx : GridRotation
  pz_px_py pz_px_ny pz_nx_py pz_nx_ny nz_px_py nz_px_ny nz_nx_py nz_nx_ny : GridRotation
  pz_py_px pz_py_nx pz_ny_px pz_ny_nx nz_py_px nz_py_nx nz_ny_px nz_ny_nx : GridRotation

abbrev pub all : List GridRotation
all =
    px_py_pz ∷ px_py_nz ∷ px_ny_pz ∷ px_ny_nz ∷ nx_py_pz ∷ nx_py_nz ∷ nx_ny_pz ∷ nx_ny_nz ∷ px_pz_py
    ∷ px_pz_ny ∷ px_nz_py ∷ px_nz_ny ∷ nx_pz_py ∷ nx_pz_ny ∷ nx_nz_py ∷ nx_nz_ny ∷ py_px_pz
    ∷ py_px_nz ∷ py_nx_pz ∷ py_nx_nz ∷ ny_px_pz ∷ ny_px_nz ∷ ny_nx_pz ∷ ny_nx_nz ∷ py_pz_px
    ∷ py_pz_nx ∷ py_nz_px ∷ py_nz_nx ∷ ny_pz_px ∷ ny_pz_nx ∷ ny_nz_px ∷ ny_nz_nx ∷ pz_px_py
    ∷ pz_px_ny ∷ pz_nx_py ∷ pz_nx_ny ∷ nz_px_py ∷ nz_px_ny ∷ nz_nx_py ∷ nz_nx_ny ∷ pz_py_px
    ∷ pz_py_nx ∷ pz_ny_px ∷ pz_ny_nx ∷ nz_py_px ∷ nz_py_nx ∷ nz_ny_px ∷ nz_ny_nx ∷ []

abbrev pub all_but_reflections : List GridRotation
all_but_reflections =
    px_py_pz ∷ px_ny_nz ∷ nx_py_nz ∷ nx_ny_pz ∷ px_pz_ny ∷ px_nz_py ∷ nx_pz_py ∷ nx_nz_ny ∷ py_px_nz
    ∷ py_nx_pz ∷ ny_px_pz ∷ ny_nx_nz ∷ py_pz_px ∷ py_nz_nx ∷ ny_pz_nx ∷ ny_nz_px ∷ pz_px_py
    ∷ pz_nx_ny ∷ nz_px_ny ∷ nz_nx_py ∷ pz_py_nx ∷ pz_ny_px ∷ nz_py_px ∷ nz_ny_nx ∷ []

abbrev pub identity : GridRotation
identity = px_py_pz

abbrev pub clockwise : GridRotation
clockwise = pz_py_nx

abbrev pub counterclockwise : GridRotation
counterclockwise = nz_py_px

-- `rotation as u8`
unfoldable pub discriminant : GridRotation → ℕ
discriminant px_py_pz = 0
discriminant px_py_nz = 1
discriminant px_ny_pz = 2
discriminant px_ny_nz = 3
discriminant nx_py_pz = 4
discriminant nx_py_nz = 5
discriminant nx_ny_pz = 6
discriminant nx_ny_nz = 7
discriminant px_pz_py = 8
discriminant px_pz_ny = 9
discriminant px_nz_py = 10
discriminant px_nz_ny = 11
discriminant nx_pz_py = 12
discriminant nx_pz_ny = 13
discriminant nx_nz_py = 14
discriminant nx_nz_ny = 15
discriminant py_px_pz = 16
discriminant py_px_nz = 17
discriminant py_nx_pz = 18
discriminant py_nx_nz = 19
discriminant ny_px_pz = 20
discriminant ny_px_nz = 21
discriminant ny_nx_pz = 22
discriminant ny_nx_nz = 23
discriminant py_pz_px = 24
discriminant py_pz_nx = 25
discriminant py_nz_px = 26
discriminant py_nz_nx = 27
discriminant ny_pz_px = 28
discriminant ny_pz_nx = 29
discriminant ny_nz_px = 30
discriminant ny_nz_nx = 31
discriminant pz_px_py = 32
discriminant pz_px_ny = 33
discriminant pz_nx_py = 34
discriminant pz_nx_ny = 35
discriminant nz_px_py = 36
discriminant nz_px_ny = 37
discriminant nz_nx_py = 38
discriminant nz_nx_ny = 39
discriminant pz_py_px = 40
discriminant pz_py_nx = 41
discriminant pz_ny_px = 42
discriminant pz_ny_nx = 43
discriminant nz_py_px = 44
discriminant nz_py_nx = 45
discriminant nz_ny_px = 46
discriminant nz_ny_nx = 47
