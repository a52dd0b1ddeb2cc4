-- ===== src/Layout/Tree.antt =====
-- all-is-cubes-ui/src/vui/layout.rs: `LayoutTree`, the space that a tree of widgets requires, and
-- the boxes that its widgets get. What a widget requires is a parameter.
use all_is_cubes.Prelude.{ℕ, ◌/◌, true, if◌then◌else◌, List, [], ◌∷◌, ◌++◌}
use all_is_cubes.Prelude.Run.{Run, ret, ◌>>=◌, i32, expect}
use all_is_cubes.Prelude.Int.{ℤ, pos, negsuc, ◌+ℤ◌, ◌-ℤ◌, ltb_ℤ, max_ℤ}
use all_is_cubes.Math.Vector.{GridVector, Cube, vec, add}
use all_is_cubes.Math.Face.{Face6, opposite, axis_number}
use all_is_cubes.Math.Face.Map.{FaceMap, negatives, positives}
use all_is_cubes.Math.GridAab.{
  GridAab, upper_bounds, from_lower_upper, component, set_component, single_cube,
}
use all_is_cubes.Math.GridAab.Operations.{abut, expand}
use all_is_cubes.Layout.{LayoutRequest, LayoutGrant, Gravity, low, center, high, shrink_to}

mutual
  pub data LayoutTree (W : Type 0) : Type 0 where
    leaf : W → LayoutTree W
    spacer : LayoutRequest → LayoutTree W
    margin : FaceMap ℤ → LayoutTree W → LayoutTree W
    stack : Face6 → LayoutTrees W → LayoutTree W
    shrink : LayoutTree W → LayoutTree W
    hud : LayoutTree W → LayoutTree W → LayoutTree W → LayoutTree W

  -- The children of a stack.
  pub data LayoutTrees (W : Type 0) : Type 0 where
    end : LayoutTrees W
    child : LayoutTree W → LayoutTrees W → LayoutTrees W

pub record Positioned (W : Type 0) : Type 0 where
  pub value : W
  pub position : LayoutGrant

-- `leaves`, with the list that `for_each_leaf` fills
module _ {W : Type 0} where
  unfoldable mutual
    pub leaves : LayoutTree W → List W
    leaves (leaf w) = w ∷ []
    leaves (spacer r) = []
    leaves (margin m t) = leaves t
    leaves (stack d ts) = leaves_of ts
    leaves (shrink t) = leaves t
    leaves (hud a b c) = leaves a ++ (leaves b ++ leaves c)

    pub leaves_of : LayoutTrees W → List W
    leaves_of end = []
    leaves_of (child t ts) = leaves t ++ leaves_of ts

-- One child of a stack: its size is added on the axis, and the greatest one is kept on the others.
unfoldable pub accumulate : ℕ → GridVector → LayoutRequest → Run GridVector
accumulate axis so_far r = do
  sum ← i32 (component so_far axis +ℤ component r.minimum axis)
  let v = so_far
  let w = r.minimum
  ret (set_component (vec (max_ℤ v.x w.x) (max_ℤ v.y w.y) (max_ℤ v.z w.z)) axis sum)

module _ {W : Type 0} (needs : W → LayoutRequest) where
  unfoldable mutual
    pub requirements : LayoutTree W → Run LayoutRequest
    requirements (leaf w) = ret (needs w)
    requirements (spacer r) = ret r
    requirements (margin m t) = do
      req ← requirements t
      below ← add req.minimum (negatives m)
      both ← add below (positives m)
      ret (record { minimum = both })
    requirements (stack d ts) = do
      v ← gather (axis_number d) (vec (pos 0) (pos 0) (pos 0)) ts
      ret (record { minimum = v })
    requirements (shrink t) = requirements t
    requirements (hud a b c) = do
      ra ← requirements a
      va ← accumulate 1 (vec (pos 0) (pos 0) (pos 0)) ra
      rb ← requirements b
      vb ← accumulate 1 va rb
      rc ← requirements c
      vc ← accumulate 1 vb rc
      ret (record { minimum = vc })

    pub gather : ℕ → GridVector → LayoutTrees W → Run GridVector
    gather axis so_far end = ret so_far
    gather axis so_far (child t ts) = do
      r ← requirements t
      next ← accumulate axis so_far r
      gather axis next ts

-- `margin.map(|_, m| -m)`: a negation panics at the least i32.
unfoldable pub shrunk_margin : FaceMap ℤ → Run (FaceMap ℤ)
shrunk_margin m = do
  nx ← i32 (pos 0 -ℤ m.nx)
  ny ← i32 (pos 0 -ℤ m.ny)
  nz ← i32 (pos 0 -ℤ m.nz)
  px ← i32 (pos 0 -ℤ m.px)
  py ← i32 (pos 0 -ℤ m.py)
  pz ← i32 (pos 0 -ℤ m.pz)
  ret (record { nx = nx; ny = ny; nz = nz; px = px; py = py; pz = pz })

-- `Cube::containing(bounds.center())`: the center is computed with floating-point numbers, which
-- hold halves of an i32 exactly, so that its floor is that of the half. The center of a valid box
-- is in range.
abbrev half_floor : ℤ → ℤ
half_floor (pos n) = pos (n / 2)
half_floor (negsuc n) = negsuc (n / 2)

unfoldable pub center_cube : GridAab → Cube
center_cube b =
    let l = b.lower_bounds in
    let s = b.sizes in
    vec (half_floor (l.x +ℤ (l.x +ℤ s.x))) (half_floor (l.y +ℤ (l.y +ℤ s.y)))
      (half_floor (l.z +ℤ (l.z +ℤ s.z)))

-- The three boxes of the layout of a head-up display.
pub record HudGrants : Type 0 where
  pub crosshair : LayoutGrant
  pub toolbar : LayoutGrant
  pub control_bar : LayoutGrant

unfoldable pub hud_grants : LayoutGrant → Run HudGrants
hud_grants grant = do
  let middle = center_cube grant.bounds
  crosshair ← single_cube (vec middle.x middle.y (pos 0))
  let l = grant.bounds.lower_bounds
  u ← upper_bounds grant.bounds
  toolbar ← from_lower_upper (vec l.x l.y (pos 0)) (vec u.x crosshair.lower_bounds.y u.z)
  top ← upper_bounds crosshair
  control_bar ← from_lower_upper (vec l.x top.y (negsuc 0)) u
  ret (record {
    crosshair = record { bounds = crosshair; gravity = vec center center center };
    toolbar = record { bounds = toolbar; gravity = vec center low center };
    control_bar = record { bounds = control_bar; gravity = vec high high low };
  })

-- The box of a child of a stack, and what is left for the following ones.
pub record Split : Type 0 where
  pub child_bounds : GridAab
  pub remainder_bounds : GridAab

unfoldable pub split_bounds : Face6 → ℤ → GridAab → Run Split
split_bounds direction size_on_axis bounds = do
  let available_size = component bounds.sizes (axis_number direction)
  child_thickness ← i32 (pos 0 -ℤ size_on_axis)
  child_box ← abut bounds (opposite direction) child_thickness
  child_bounds ← expect child_box
  rest_size ← i32 (available_size -ℤ size_on_axis)
  rest_thickness ← i32 (pos 0 -ℤ rest_size)
  rest_box ← abut bounds direction rest_thickness
  remainder_bounds ← expect rest_box
  ret (record { child_bounds = child_bounds; remainder_bounds = remainder_bounds })

module _ {W : Type 0} (needs : W → LayoutRequest) where
  unfoldable mutual
    pub perform_layout : LayoutTree W → LayoutGrant → Run (LayoutTree (Positioned W))
    perform_layout (leaf w) grant = ret (leaf (record { value = w; position = grant }))
    perform_layout (spacer r) grant = ret (spacer r)
    perform_layout (margin m t) grant = do
      inward ← shrunk_margin m
      inner ← expand grant.bounds inward
      t' ← perform_layout t (record { bounds = inner; gravity = grant.gravity })
      ret (margin m t')
    perform_layout (stack d ts) grant = do
      ts' ← layout_stack d ts grant.gravity grant.bounds
      ret (stack d ts')
    perform_layout (shrink t) grant = do
      r ← requirements needs t
      smaller ← shrink_to grant r.minimum true
      t' ← perform_layout t smaller
      ret (shrink t')
    perform_layout (hud a b c) grant = do
      grants ← hud_grants grant
      a' ← perform_layout a grants.crosshair
      b' ← perform_layout b grants.toolbar
      c' ← perform_layout c grants.control_bar
      ret (hud a' b' c')

    -- The loop ends at the first child for which there is no room.
    pub layout_stack : Face6 → LayoutTrees W → Gravity → GridAab → Run (LayoutTrees (Positioned W))
    layout_stack d end g bounds = ret end
    layout_stack d (child t ts) g bounds = do
      r ← requirements needs t
      let size_on_axis = component r.minimum (axis_number d)
      if ltb_ℤ (component bounds.sizes (axis_number d)) size_on_axis then ret end else do
        split ← split_bounds d size_on_axis bounds
        t' ← perform_layout t (record { bounds = split.child_bounds; gravity = g })
        ts' ← layout_stack d ts g split.remainder_bounds
        ret (child t' ts')
