-- ===== src/Math/Face/Map.antt =====
-- all-is-cubes/src/math/face.rs: `FaceMap`, six values keyed by faces.
use all_is_cubes.Prelude.{List, [], ◌∷◌}
use all_is_cubes.Math.Vector.{Vector3, vec}
use all_is_cubes.Math.Face.{Face6}

pub record FaceMap {ℓ} (V : Type ℓ) : Type ℓ where
  pub nx : V
  pub ny : V
  pub nz : V
  pub px : V
  pub py : V
  pub pz : V

-- `Index<Face6>`: `map[face]`
unfoldable pub value_at {ℓ} : {V : Type ℓ} → FaceMap V → Face6 → V
value_at m Face6.nx = m.nx
value_at m Face6.ny = m.ny
value_at m Face6.nz = m.nz
value_at m Face6.px = m.px
value_at m Face6.py = m.py
value_at m Face6.pz = m.pz

module _ {ℓ} {V : Type ℓ} where
  unfoldable pub from_fn : (Face6 → V) → FaceMap V
  from_fn f = record {
    nx = f Face6.nx;
    ny = f Face6.ny;
    nz = f Face6.nz;
    px = f Face6.px;
    py = f Face6.py;
    pz = f Face6.pz;
  }

  unfoldable pub symmetric : Vector3 V → FaceMap V
  symmetric v = record { nx = v.x; ny = v.y; nz = v.z; px = v.x; py = v.y; pz = v.z }

  unfoldable pub negatives : FaceMap V → Vector3 V
  negatives m = vec m.nx m.ny m.nz

  unfoldable pub positives : FaceMap V → Vector3 V
  positives m = vec m.px m.py m.pz

  unfoldable pub into_values : FaceMap V → List V
  into_values m = m.nx ∷ m.ny ∷ m.nz ∷ m.px ∷ m.py ∷ m.pz ∷ []

  unfoldable pub repeat : V → FaceMap V
  repeat v = record { nx = v; ny = v; nz = v; px = v; py = v; pz = v }

  -- `IndexMut<Face6>`, as `with` uses it.
  unfoldable pub with_value : FaceMap V → Face6 → V → FaceMap V
  with_value m Face6.nx v = record m { nx = v }
  with_value m Face6.ny v = record m { ny = v }
  with_value m Face6.nz v = record m { nz = v }
  with_value m Face6.px v = record m { px = v }
  with_value m Face6.py v = record m { py = v }
  with_value m Face6.pz v = record m { pz = v }

module _ {ℓ κ} {V : Type ℓ} {U : Type κ} where
  unfoldable pub map_values : FaceMap V → (Face6 → V → U) → FaceMap U
  map_values m f = record {
    nx = f Face6.nx m.nx;
    ny = f Face6.ny m.ny;
    nz = f Face6.nz m.nz;
    px = f Face6.px m.px;
    py = f Face6.py m.py;
    pz = f Face6.pz m.pz;
  }

module _ {ℓ κ μ} {V : Type ℓ} {U : Type κ} {R : Type μ} where
  unfoldable pub zip_values : FaceMap V → FaceMap U → (Face6 → V → U → R) → FaceMap R
  zip_values m n f = record {
    nx = f Face6.nx m.nx n.nx;
    ny = f Face6.ny m.ny n.ny;
    nz = f Face6.nz m.nz n.nz;
    px = f Face6.px m.px n.px;
    py = f Face6.py m.py n.py;
    pz = f Face6.pz m.pz n.pz;
  }
