-- ===== src/Math/Rotation/Basis.antt =====
-- all-is-cubes/src/math/rotation.rs: `from_basis` and `to_basis`, the two tables.
use all_is_cubes.Prelude.Run.{Run, ret, panic}
use all_is_cubes.Math.Vector.{Vector3, vec}
use all_is_cubes.Math.Face.{Face6, nx, ny, nz, px, py, pz}
use all_is_cubes.Math.Rotation.{
  GridRotation, px_py_pz, px_py_nz, px_ny_pz, px_ny_nz, nx_py_pz, nx_py_nz, nx_ny_pz, nx_ny_nz,
  px_pz_py, px_pz_ny, px_nz_py, px_nz_ny, nx_pz_py, nx_pz_ny, nx_nz_py, nx_nz_ny, py_px_pz,
  py_px_nz, py_nx_pz, py_nx_nz, ny_px_pz, ny_px_nz, ny_nx_pz, ny_nx_nz, py_pz_px, py_pz_nx,
  py_nz_px, py_nz_nx, ny_pz_px, ny_pz_nx, ny_nz_px, ny_nz_nx, pz_px_py, pz_px_ny, pz_nx_py,
  pz_nx_ny, nz_px_py, nz_px_ny, nz_nx_py, nz_nx_ny, pz_py_px, pz_py_nx, pz_ny_px, pz_ny_nx,
  nz_py_px, nz_py_nx, nz_ny_px, nz_ny_nx,
}

-- `from_basis_impl` on the elements of the basis.
unfoldable pub from_basis_impl : Face6 → Face6 → Face6 → Run GridRotation
from_basis_impl px py pz = ret px_py_pz
from_basis_impl px pz py = ret px_pz_py
from_basis_impl py px pz = ret py_px_pz
from_basis_impl py pz px = ret py_pz_px
from_basis_impl pz px py = ret pz_px_py
from_basis_impl pz py px = ret pz_py_px
from_basis_impl px py nz = ret px_py_nz
from_basis_impl px pz ny = ret px_pz_ny
from_basis_impl py px nz = ret py_px_nz
from_basis_impl py pz nx = ret py_pz_nx
from_basis_impl pz px ny = ret pz_px_ny
from_basis_impl pz py nx = ret pz_py_nx
from_basis_impl px ny pz = ret px_ny_pz
from_basis_impl px nz py = ret px_nz_py
from_basis_impl py nx pz = ret py_nx_pz
from_basis_impl py nz px = ret py_nz_px
from_basis_impl pz nx py = ret pz_nx_py
from_basis_impl pz ny px = ret pz_ny_px
from_basis_impl px ny nz = ret px_ny_nz
from_basis_impl px nz ny = ret px_nz_ny
from_basis_impl py nx nz = ret py_nx_nz
from_basis_impl py nz nx = ret py_nz_nx
from_basis_impl pz nx ny = ret pz_nx_ny
from_basis_impl pz ny nx = ret pz_ny_nx
from_basis_impl nx py pz = ret nx_py_pz
from_basis_impl nx pz py = ret nx_pz_py
from_basis_impl ny px pz = ret ny_px_pz
from_basis_impl ny pz px = ret ny_pz_px
from_basis_impl nz px py = ret nz_px_py
from_basis_impl nz py px = ret nz_py_px
from_basis_impl nx py nz = ret nx_py_nz
from_basis_impl nx pz ny = ret nx_pz_ny
from_basis_impl ny px nz = ret ny_px_nz
from_basis_impl ny pz nx = ret ny_pz_nx
from_basis_impl nz px ny = ret nz_px_ny
from_basis_impl nz py nx = ret nz_py_nx
from_basis_impl nx ny pz = ret nx_ny_pz
from_basis_impl nx nz py = ret nx_nz_py
from_basis_impl ny nx pz = ret ny_nx_pz
from_basis_impl ny nz px = ret ny_nz_px
from_basis_impl nz nx py = ret nz_nx_py
from_basis_impl nz ny px = ret nz_ny_px
from_basis_impl nx ny nz = ret nx_ny_nz
from_basis_impl nx nz ny = ret nx_nz_ny
from_basis_impl ny nx nz = ret ny_nx_nz
from_basis_impl ny nz nx = ret ny_nz_nx
from_basis_impl nz nx ny = ret nz_nx_ny
from_basis_impl nz ny nx = ret nz_ny_nx
from_basis_impl _ _ _ = panic

unfoldable pub from_basis : Vector3 Face6 → Run GridRotation
unfolding from_basis_impl
from_basis v = from_basis_impl v.x v.y v.z

unfoldable pub to_basis : GridRotation → Vector3 Face6
to_basis px_py_pz = vec px py pz
to_basis px_pz_py = vec px pz py
to_basis py_px_pz = vec py px pz
to_basis py_pz_px = vec py pz px
to_basis pz_px_py = vec pz px py
to_basis pz_py_px = vec pz py px
to_basis px_py_nz = vec px py nz
to_basis px_pz_ny = vec px pz ny
to_basis py_px_nz = vec py px nz
to_basis py_pz_nx = vec py pz nx
to_basis pz_px_ny = vec pz px ny
to_basis pz_py_nx = vec pz py nx
to_basis px_ny_pz = vec px ny pz
to_basis px_nz_py = vec px nz py
to_basis py_nx_pz = vec py nx pz
to_basis py_nz_px = vec py nz px
to_basis pz_nx_py = vec pz nx py
to_basis pz_ny_px = vec pz ny px
to_basis px_ny_nz = vec px ny nz
to_basis px_nz_ny = vec px nz ny
to_basis py_nx_nz = vec py nx nz
to_basis py_nz_nx = vec py nz nx
to_basis pz_nx_ny = vec pz nx ny
to_basis pz_ny_nx = vec pz ny nx
to_basis nx_py_pz = vec nx py pz
to_basis nx_pz_py = vec nx pz py
to_basis ny_px_pz = vec ny px pz
to_basis ny_pz_px = vec ny pz px
to_basis nz_px_py = vec nz px py
to_basis nz_py_px = vec nz py px
to_basis nx_py_nz = vec nx py nz
to_basis nx_pz_ny = vec nx pz ny
to_basis ny_px_nz = vec ny px nz
to_basis ny_pz_nx = vec ny pz nx
to_basis nz_px_ny = vec nz px ny
to_basis nz_py_nx = vec nz py nx
to_basis nx_ny_pz = vec nx ny pz
to_basis nx_nz_py = vec nx nz py
to_basis ny_nx_pz = vec ny nx pz
to_basis ny_nz_px = vec ny nz px
to_basis nz_nx_py = vec nz nx py
to_basis nz_ny_px = vec nz ny px
to_basis nx_ny_nz = vec nx ny nz
to_basis nx_nz_ny = vec nx nz ny
to_basis ny_nx_nz = vec ny nx nz
to_basis ny_nz_nx = vec ny nz nx
to_basis nz_nx_ny = vec nz nx ny
to_basis nz_ny_nx = vec nz ny nx
