-- ===== src/Layout/Laying.antt =====
-- `LayoutTree::perform_layout` (all-is-cubes-ui/src/vui/layout.rs): where there is enough room.
use all_is_cubes.Prelude.{ℕ, zero, suc, ◌≡◌, refl, ap, true, arith}
use all_is_cubes.Prelude.Run.{ret, >>=-eq-ret, ret-eq_ret}
use all_is_cubes.Prelude.Int.{ℤ, pos, ◌+ℤ◌, ◌-ℤ◌, ◌≤ℤ◌, int_cases}
use all_is_cubes.Math.Vector.{GridVector, vec}
use all_is_cubes.Math.Face.{Face6, axis_number, opposite}
use all_is_cubes.Math.GridAab.{GridAab, component, set_component}
use all_is_cubes.Math.GridAab.Volume.{IsValid}
use all_is_cubes.Math.GridAab.Union.{Encloses, Encloses_refl}
use all_is_cubes.Layout.{LayoutRequest, LayoutGrant, Gravity}
use all_is_cubes.Layout.Tree.{
  LayoutTree, LayoutTrees, leaf, spacer, margin, stack, shrink, hud, end, child, Positioned, leaves,
  leaves_of, requirements, gather, accumulate, perform_layout, layout_stack,
}
use all_is_cubes.Layout.Sizing.{IsNonneg, Fits}
use all_is_cubes.Layout.Shrinking.{shrink_to-Fits}
use all_is_cubes.Layout.Insetting.{
  inset, inset-Fits, inset-Encloses, inset-IsValid, shrunk_margin-ret, expand-ret,
}
use all_is_cubes.Layout.Requiring.{
  Accumulated, accumulate_lem, margin_sum, IsPlain, ArePlain, requirements-IsNonneg, gather-Fits,
}
use all_is_cubes.Layout.Placing.{IsLaid, IsLaid-widen, IsLaid-append}
use all_is_cubes.Layout.Slabs.{slab, slab-IsValid, slab-Encloses, le→not_ltb, axis_number-opposite}
use all_is_cubes.Layout.Splitting.{split_bounds-Splits, slabs-Divides}

-- The room on the axis of a stack is what the children not placed yet require; on the other axes it
-- is what all require.
abbrev Room : ℕ → GridVector → GridVector → GridVector → Type 0
Room zero v w s = ((w.x -ℤ v.x) ≤ℤ s.x) × (w.y ≤ℤ s.y) × (w.z ≤ℤ s.z)
Room (suc zero) v w s = (w.x ≤ℤ s.x) × ((w.y -ℤ v.y) ≤ℤ s.y) × (w.z ≤ℤ s.z)
Room (suc (suc n)) v w s = (w.x ≤ℤ s.x) × (w.y ≤ℤ s.y) × ((w.z -ℤ v.z) ≤ℤ s.z)

Room-start : (axis : ℕ) (w s : GridVector) → Fits w s → Room axis (vec (pos 0) (pos 0) (pos 0)) w s
Room-start zero w s h = (omega int_cases, h.1, h.2)
Room-start (suc zero) w s h = (h.0, omega int_cases, h.2)
Room-start (suc (suc n)) w s h = (h.0, h.1, omega int_cases)

-- A child takes its part of the room.
Room-step :
    (axis : ℕ) (v r u w s : GridVector)
    → Accumulated axis v r u
    → IsNonneg r
    → Fits u w
    → Room axis v w s
    → (pos 0 ≤ℤ component r axis)
      × (component r axis ≤ℤ component s axis)
      × Fits r (set_component s axis (component r axis))
      × Room axis u w (set_component s axis (component s axis -ℤ component r axis))
Room-step zero v r u w s a n f h =
    let e : (v.x +ℤ r.x) ≤ℤ u.x = rw a.0 (omega arith) in
    let e' : u.x ≤ℤ (v.x +ℤ r.x) = rw a.0 (omega arith) in
    (
      n.0,
      omega int_cases,
      (omega arith, omega int_cases, omega int_cases),
      (omega int_cases, h.1, h.2),
    )
Room-step (suc zero) v r u w s a n f h =
    let e : (v.y +ℤ r.y) ≤ℤ u.y = rw a.0 (omega arith) in
    let e' : u.y ≤ℤ (v.y +ℤ r.y) = rw a.0 (omega arith) in
    (
      n.1,
      omega int_cases,
      (omega int_cases, omega arith, omega int_cases),
      (h.0, omega int_cases, h.2),
    )
Room-step (suc (suc i)) v r u w s a n f h =
    let e : (v.z +ℤ r.z) ≤ℤ u.z = rw a.0 (omega arith) in
    let e' : u.z ≤ℤ (v.z +ℤ r.z) = rw a.0 (omega arith) in
    (
      n.2,
      omega int_cases,
      (omega int_cases, omega int_cases, omega arith),
      (h.0, h.1, omega int_cases),
    )

-- One of the two boxes that a stack makes of a box.
record IsPart (b o : GridAab) (axis : ℕ) (size : ℤ) : Type 0 where
  valid : IsValid o
  within : Encloses b o
  sizes : o.sizes ≡ set_component b.sizes axis size

slabs-Parts :
    (d : Face6) (a : ℤ) (b : GridAab)
    → IsValid b
    → pos 0 ≤ℤ a
    → a ≤ℤ component b.sizes (axis_number d)
    → IsPart b (slab b (opposite d) a) (axis_number d) a
      × IsPart b
          (slab b d (component b.sizes (axis_number d) -ℤ a))
          (axis_number d)
          (component b.sizes (axis_number d) -ℤ a)
unfolding slab
slabs-Parts d a b v nn le =
    let rest = component b.sizes (axis_number d) -ℤ a in
    let back : a ≤ℤ component b.sizes (axis_number (opposite d)) = rw (axis_number-opposite d) le in
    let rest_nn : pos 0 ≤ℤ rest = omega int_cases in
    let rest_le : rest ≤ℤ component b.sizes (axis_number d) = omega int_cases in
    (
      record {
        valid = slab-IsValid b (opposite d) a v nn back;
        within = slab-Encloses b (opposite d) a v nn back;
        sizes = ap (λ i. set_component b.sizes i a) (axis_number-opposite d);
      },
      record {
        valid = slab-IsValid b d rest v rest_nn rest_le;
        within = slab-Encloses b d rest v rest_nn rest_le;
        sizes = refl;
      },
    )

module _ {W : Type 0} (needs : W → LayoutRequest) where
  -- The steps for a child that there is room for.
  layout_stack-child :
      (t : LayoutTree W) (ts : LayoutTrees W) (d : Face6) (gravity : Gravity) (b : GridAab)
      (r : LayoutRequest) (t' : LayoutTree (Positioned W)) (ts' : LayoutTrees (Positioned W))
      → requirements needs t ≡ ret r
      → IsValid b
      → pos 0 ≤ℤ component r.minimum (axis_number d)
      → component r.minimum (axis_number d) ≤ℤ component b.sizes (axis_number d)
      → perform_layout needs t (record {
        bounds = slab b (opposite d) (component r.minimum (axis_number d));
        gravity = gravity;
      })
        ≡ ret t'
      → layout_stack needs d ts gravity
          (slab b d (component b.sizes (axis_number d) -ℤ component r.minimum (axis_number d)))
        ≡ ret ts'
      → layout_stack needs d (child t ts) gravity b ≡ ret (child t' ts')
  unfolding layout_stack
  layout_stack-child t ts d gravity b r t' ts' f o nn le l j =
      let a = component r.minimum (axis_number d) in
      rw
        (
          f,
          le→not_ltb (component b.sizes (axis_number d)) a le,
          split_bounds-Splits d a b o nn le,
          l,
          j,
        )
        refl

  mutual
    unfolding perform_layout layout_stack requirements gather leaves leaves_of IsPlain

    performs :
        (t : LayoutTree W) (g : LayoutGrant) (r : LayoutRequest)
        → IsPlain needs t
        → IsValid g.bounds
        → requirements needs t ≡ ret r
        → Fits r.minimum g.bounds.sizes
        → (t' : LayoutTree (Positioned W)) × (perform_layout needs t g ≡ ret t')
          × IsLaid needs g.bounds (leaves t) (leaves t')
    performs (leaf w) g r p v e f = (
      leaf (record { value = w; position = g }),
      refl,
      record {
        values = refl;
        placed =
            (record { valid = v; within = Encloses_refl g.bounds; fits = rw (ret-eq_ret e) f }, tt);
        apart = (tt, tt);
      },
    )
    performs (spacer q) g r p v e f =
        (spacer q, refl, record { values = refl; placed = tt; apart = tt })
    performs (margin m t) g r (n, p) v e f =
        let (q, h, k) = >>=-eq-ret (requirements needs t) _ e in
        let room = rw (margin_sum m q r k) at f in
        let q_nonneg = requirements-IsNonneg needs t q p h in
        let (t', l, i) =
          performs t (record { bounds = inset g.bounds m; gravity = g.gravity }) q p
            (inset-IsValid g.bounds m q.minimum v q_nonneg n room) h
            (inset-Fits g.bounds m q.minimum v q_nonneg n room) in
        (
          margin m t',
          rw
              (
                shrunk_margin-ret g.bounds m q.minimum v q_nonneg n room,
                expand-ret g.bounds m q.minimum v q_nonneg n room,
                l,
              )
              refl,
          IsLaid-widen needs g.bounds (inset g.bounds m) (leaves t')
              (inset-Encloses g.bounds m q.minimum v q_nonneg n room) i,
        )
    performs (stack d ts) g r p v e f =
        let (w, h, k) =
          >>=-eq-ret (gather needs (axis_number d) (vec (pos 0) (pos 0) (pos 0)) ts) _ e in
        let (ts', l, i) = stacks ts d g.gravity g.bounds (vec (pos 0) (pos 0) (pos 0)) w p v h (
          Room-start (axis_number d) w g.bounds.sizes
            (rw (ap (λ (q : LayoutRequest). q.minimum) (ret-eq_ret k)) f)) in
        (stack d ts', rw l refl, i)
    performs (shrink t) g r p v e f =
        let (g', s, (o, c, k)) =
          shrink_to-Fits g r.minimum true v (requirements-IsNonneg needs t r p e) f in
        let (t', l, i) = performs t g' r p o e k in
        (shrink t', rw (e, s, l) refl, IsLaid-widen needs g.bounds g'.bounds (leaves t') c i)
    performs (hud a b c) g r p v e f = absurd p

    stacks :
        (ts : LayoutTrees W) (d : Face6) (gravity : Gravity) (b : GridAab) (v w : GridVector)
        → ArePlain needs ts
        → IsValid b
        → gather needs (axis_number d) v ts ≡ ret w
        → Room (axis_number d) v w b.sizes
        → (ts' : LayoutTrees (Positioned W)) × (layout_stack needs d ts gravity b ≡ ret ts')
          × IsLaid needs b (leaves_of ts) (leaves_of ts')
    stacks end d gravity b v w p o e h =
        (end, refl, record { values = refl; placed = tt; apart = tt })
    stacks (child t ts) d gravity b v w (p, ps) o e h =
        let axis = axis_number d in
        let (r, f, g) = >>=-eq-ret (requirements needs t) _ e in
        let (u, m, k) = >>=-eq-ret (accumulate axis v r) _ g in
        let a = component r.minimum axis in
        let rest = component b.sizes axis -ℤ a in
        let (nn, le, child_fits, rest_room) =
          Room-step axis v r.minimum u w b.sizes (accumulate_lem axis v r u m)
            (requirements-IsNonneg needs t r p f) (gather-Fits needs ts axis u w ps k) h in
        let (lower, upper) = slabs-Parts d a b o nn le in
        let (t', l, i) =
          performs t (record { bounds = slab b (opposite d) a; gravity = gravity }) r p lower.valid
            f (rw lower.sizes child_fits) in
        let (ts', j, q) =
          stacks ts d gravity (slab b d rest) u w ps upper.valid k (rw upper.sizes rest_room) in
        (
          child t' ts',
          layout_stack-child t ts d gravity b r t' ts' f o nn le l j,
          IsLaid-append needs (slab b (opposite d) a) (slab b d rest) (leaves t') (leaves_of ts')
              (λ c. (slabs-Divides d a b nn le c).1) lower.within upper.within i q,
        )

  -- In a valid box that is large enough for what a tree requires that has no head-up display, no
  -- negative minimum size and no negative margin, the layout never panics and leaves no widget out. Each widget's box is valid, lies in the given box and is large enough for
  -- the widget, and no two boxes have a cube in common.
  pub perform_layout-IsLaid :
      (t : LayoutTree W) (g : LayoutGrant) (r : LayoutRequest)
      → IsPlain needs t
      → IsValid g.bounds
      → requirements needs t ≡ ret r
      → Fits r.minimum g.bounds.sizes
      → (t' : LayoutTree (Positioned W)) × (perform_layout needs t g ≡ ret t')
        × IsLaid needs g.bounds (leaves t) (leaves t')
  perform_layout-IsLaid t g r p v e f = performs t g r p v e f
