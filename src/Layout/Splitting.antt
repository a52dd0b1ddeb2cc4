-- ===== src/Layout/Splitting.antt =====
-- The boxes of a stack (all-is-cubes-ui/src/vui/layout.rs): a child's box and what is left.
use all_is_cubes.Prelude.{◌≡◌, refl, ap, ◌↔◌, ◌⊎◌, inl, inr, arith}
use all_is_cubes.Prelude.Run.{ret, i32-ret}
use all_is_cubes.Prelude.Int.{ℤ, pos, ◌+ℤ◌, ◌-ℤ◌, ◌≤ℤ◌, ◌<ℤ◌, InI32, int_cases}
use all_is_cubes.Math.Vector.{Cube}
use all_is_cubes.Math.Face.{Face6, nx, ny, nz, px, py, pz, opposite, axis_number, is_positive}
use all_is_cubes.Math.GridAab.{GridAab, component, set_component}
use all_is_cubes.Layout.Tree.{split_bounds, Split}
use all_is_cubes.Math.GridAab.Index.{Inside, Between}
use all_is_cubes.Math.GridAab.Volume.{IsValid}
use all_is_cubes.Layout.Slabs.{slab, slab-IsValid, abut-slab, axis_number-opposite, component_in}

cut_cases : (c m : ℤ) → (c <ℤ m) ⊎ (m ≤ℤ c)
cut_cases c m = ground arith

module _ (l s k c : ℤ) (nn : pos 0 ≤ℤ k) (le : k ≤ℤ s) where
  cut_upward :
      (Between l s c → Between l k c ⊎ Between ((l +ℤ s) -ℤ (s -ℤ k)) (s -ℤ k) c)
      × (Between l k c ⊎ Between ((l +ℤ s) -ℤ (s -ℤ k)) (s -ℤ k) c → Between l s c)
      × ¬ (Between l k c × Between ((l +ℤ s) -ℤ (s -ℤ k)) (s -ℤ k) c)
  cut_upward = (
    λ (g, h). elim (cut_cases c (l +ℤ k)) [
      | inl i ↦ inl (g, i)
      | inr i ↦ inr (omega int_cases, omega int_cases)
    ],
    λ e. elim e [
      | inl (g, h) ↦ (g, omega int_cases)
      | inr (g, h) ↦ (omega int_cases, omega int_cases)
    ],
    λ ((g, h), (i, j)). omega int_cases,
  )

  cut_downward :
      (Between l s c → Between ((l +ℤ s) -ℤ k) k c ⊎ Between l (s -ℤ k) c)
      × (Between ((l +ℤ s) -ℤ k) k c ⊎ Between l (s -ℤ k) c → Between l s c)
      × ¬ (Between ((l +ℤ s) -ℤ k) k c × Between l (s -ℤ k) c)
  cut_downward = (
    λ (g, h). elim (cut_cases c (l +ℤ (s -ℤ k))) [
      | inl i ↦ inr (g, i)
      | inr i ↦ inl (omega int_cases, omega int_cases)
    ],
    λ e. elim e [
      | inl (g, h) ↦ (omega int_cases, omega int_cases)
      | inr (g, h) ↦ (g, omega int_cases)
    ],
    λ ((g, h), (i, j)). omega int_cases,
  )

-- The cubes of a box are those of two others, which have none in common.
abbrev pub Divides : GridAab → GridAab → GridAab → Type 0
Divides b o r = (c : Cube) → (Inside b c ↔ (Inside o c ⊎ Inside r c)) × ¬ (Inside o c × Inside r c)

pub slabs-Divides :
    (d : Face6) (k : ℤ) (b : GridAab)
    → pos 0 ≤ℤ k
    → k ≤ℤ component b.sizes (axis_number d)
    → Divides b (slab b (opposite d) k) (slab b d (component b.sizes (axis_number d) -ℤ k))
unfolding opposite axis_number is_positive slab
slabs-Divides nx k b nn le c =
    let e = cut_downward b.lower_bounds.x b.sizes.x k c.x nn le in
    ((λ h. ground (arith, e.0), λ h. ground (arith, e.1)), λ h. ground (arith, e.2))
slabs-Divides ny k b nn le c =
    let e = cut_downward b.lower_bounds.y b.sizes.y k c.y nn le in
    ((λ h. ground (arith, e.0), λ h. ground (arith, e.1)), λ h. ground (arith, e.2))
slabs-Divides nz k b nn le c =
    let e = cut_downward b.lower_bounds.z b.sizes.z k c.z nn le in
    ((λ h. ground (arith, e.0), λ h. ground (arith, e.1)), λ h. ground (arith, e.2))
slabs-Divides px k b nn le c =
    let e = cut_upward b.lower_bounds.x b.sizes.x k c.x nn le in
    ((λ h. ground (arith, e.0), λ h. ground (arith, e.1)), λ h. ground (arith, e.2))
slabs-Divides py k b nn le c =
    let e = cut_upward b.lower_bounds.y b.sizes.y k c.y nn le in
    ((λ h. ground (arith, e.0), λ h. ground (arith, e.1)), λ h. ground (arith, e.2))
slabs-Divides pz k b nn le c =
    let e = cut_upward b.lower_bounds.z b.sizes.z k c.z nn le in
    ((λ h. ground (arith, e.0), λ h. ground (arith, e.1)), λ h. ground (arith, e.2))

pub split_bounds-Splits :
    (d : Face6) (k : ℤ) (b : GridAab)
    → IsValid b
    → pos 0 ≤ℤ k
    → k ≤ℤ component b.sizes (axis_number d)
    → split_bounds d k b
      ≡ ret (record {
        child_bounds = slab b (opposite d) k;
        remainder_bounds = slab b d (component b.sizes (axis_number d) -ℤ k);
      })
unfolding split_bounds
split_bounds-Splits d k b v nn le =
    let size = component b.sizes (axis_number d) in
    let size_in : InI32 size = component_in b.sizes d v.sizes_in in
    let back_le : k ≤ℤ component b.sizes (axis_number (opposite d)) =
      rw (axis_number-opposite d) le in
    let rest_nn : pos 0 ≤ℤ (size -ℤ k) = omega int_cases in
    let rest_le : (size -ℤ k) ≤ℤ size = omega int_cases in
    rw
      (
        i32-ret (pos 0 -ℤ k) (omega int_cases, omega int_cases),
        abut-slab b (opposite d) k v (slab-IsValid b (opposite d) k v nn back_le) nn back_le,
        i32-ret (size -ℤ k) (omega int_cases, omega int_cases),
        i32-ret (pos 0 -ℤ (size -ℤ k)) (omega int_cases, omega int_cases),
        abut-slab b d (size -ℤ k) v (slab-IsValid b d (size -ℤ k) v rest_nn rest_le) rest_nn
            rest_le,
      )
      refl

-- Splitting a valid box for a child whose size on the axis is not negative and not more than there
-- is never panics. The child's box has that size on the axis, what is left has the rest, both are
-- valid boxes, and each cube of the box lies in exactly one of them.
pub split_bounds-Divides :
    (d : Face6) (k : ℤ) (b : GridAab)
    → IsValid b
    → pos 0 ≤ℤ k
    → k ≤ℤ component b.sizes (axis_number d)
    → (s : Split) × (split_bounds d k b ≡ ret s)
      × (IsValid s.child_bounds × IsValid s.remainder_bounds)
      × ((s.child_bounds.sizes ≡ set_component b.sizes (axis_number d) k)
          × (s.remainder_bounds.sizes
              ≡ set_component b.sizes (axis_number d) (component b.sizes (axis_number d) -ℤ k)))
      × Divides b s.child_bounds s.remainder_bounds
unfolding slab axis_number
split_bounds-Divides d k b v nn le =
    let size = component b.sizes (axis_number d) in
    let child_le : k ≤ℤ component b.sizes (axis_number (opposite d)) =
      rw (axis_number-opposite d) le in
    (
      record { child_bounds = slab b (opposite d) k; remainder_bounds = slab b d (size -ℤ k) },
      split_bounds-Splits d k b v nn le,
      (
        slab-IsValid b (opposite d) k v nn child_le,
        slab-IsValid b d (size -ℤ k) v (omega int_cases) (omega int_cases),
      ),
      (ap (λ a. set_component b.sizes a k) (axis_number-opposite d), refl),
      slabs-Divides d k b nn le,
    )
