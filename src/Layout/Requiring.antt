-- ===== src/Layout/Requiring.antt =====
-- What a tree of widgets requires (`LayoutTree::requirements`, all-is-cubes-ui/src/vui/layout.rs).
use all_is_cubes.Prelude.{ℕ, zero, suc, ◌≡◌, sym, ap, subst, ◌∙◌, arith}
use all_is_cubes.Prelude.Run.{ret, i32, ret-eq_ret, >>=-eq-ret, ◌>>=◌}
use all_is_cubes.Prelude.Int.{ℤ, pos, ◌+ℤ◌, ◌≤ℤ◌, int_cases}
use all_is_cubes.Math.Vector.{GridVector, vec, add, add_vec, run_vec-eq_ret}
use all_is_cubes.Math.Face.{axis_number}
use all_is_cubes.Math.Face.Map.{FaceMap, negatives, positives}
use all_is_cubes.Layout.{LayoutRequest}
use all_is_cubes.Layout.Tree.{
  LayoutTree, LayoutTrees, leaf, spacer, margin, stack, shrink, hud, end, child, accumulate,
  requirements, gather,
}
use all_is_cubes.Layout.Sizing.{IsNonneg, Fits}
use all_is_cubes.Layout.Insetting.{IsMargin}

-- The size on the axis of a stack grows by that of a child, and the others hold the child's.
abbrev pub Accumulated : ℕ → GridVector → GridVector → GridVector → Type 0
Accumulated zero v r w =
    (w.x ≡ v.x +ℤ r.x) × ((v.y ≤ℤ w.y) × (r.y ≤ℤ w.y)) × ((v.z ≤ℤ w.z) × (r.z ≤ℤ w.z))
Accumulated (suc zero) v r w =
    (w.y ≡ v.y +ℤ r.y) × ((v.x ≤ℤ w.x) × (r.x ≤ℤ w.x)) × ((v.z ≤ℤ w.z) × (r.z ≤ℤ w.z))
Accumulated (suc (suc n)) v r w =
    (w.z ≡ v.z +ℤ r.z) × ((v.x ≤ℤ w.x) × (r.x ≤ℤ w.x)) × ((v.y ≤ℤ w.y) × (r.y ≤ℤ w.y))

pub accumulate_lem :
    (axis : ℕ) (v : GridVector) (r : LayoutRequest) (w : GridVector)
    → accumulate axis v r ≡ ret w
    → Accumulated axis v r.minimum w
unfolding accumulate i32
accumulate_lem zero v r w h = ground arith
accumulate_lem (suc zero) v r w h = ground arith
accumulate_lem (suc (suc n)) v r w h = ground arith

pub Accumulated-Fits :
    (axis : ℕ) (v r w : GridVector) → Accumulated axis v r w → IsNonneg r → Fits v w
Accumulated-Fits zero v r w h n = (rw h.0 (omega int_cases), h.1.0, h.2.0)
Accumulated-Fits (suc zero) v r w h n = (h.1.0, rw h.0 (omega int_cases), h.2.0)
Accumulated-Fits (suc (suc i)) v r w h n = (h.1.0, h.2.0, rw h.0 (omega int_cases))

-- What a margin requires, given what its child does.
pub margin_sum :
    (m : FaceMap ℤ) (q r : LayoutRequest)
    → (add q.minimum (negatives m) >>= λ below.
        add below (positives m) >>= λ both. ret (record { minimum = both }))
      ≡ ret r
    → r.minimum ≡ add_vec (add_vec q.minimum (negatives m)) (positives m)
unfolding add
margin_sum m q r e =
    let (u, f, g) = >>=-eq-ret (add q.minimum (negatives m)) _ e in
    let (w, h, k) = >>=-eq-ret (add u (positives m)) _ g in
    let below = (run_vec-eq_ret _ f).0 in
    let both = (run_vec-eq_ret _ h).0 in
    sym (ap (λ (q : LayoutRequest). q.minimum) (ret-eq_ret k))
    ∙ both
    ∙ ap (λ u. add_vec u (positives m)) below

margin-IsNonneg :
    (m : FaceMap ℤ) (q r : LayoutRequest)
    → IsMargin m
    → IsNonneg q.minimum
    → r.minimum ≡ add_vec (add_vec q.minimum (negatives m)) (positives m)
    → IsNonneg r.minimum
unfolding negatives positives
margin-IsNonneg m q r n p e = rw e (omega int_cases, omega int_cases, omega int_cases)

module _ {W : Type 0} (needs : W → LayoutRequest) where
  -- No size or side is negative, and there is no head-up display: its boxes do not follow from what it
  -- requires.
  unfoldable mutual
    pub IsPlain : LayoutTree W → Type 0
    IsPlain (leaf w) = IsNonneg (needs w).minimum
    IsPlain (spacer r) = IsNonneg r.minimum
    IsPlain (margin m t) = IsMargin m × IsPlain t
    IsPlain (stack d ts) = ArePlain ts
    IsPlain (shrink t) = IsPlain t
    IsPlain (hud a b c) = ⊥

    pub ArePlain : LayoutTrees W → Type 0
    ArePlain end = Unit {0}
    ArePlain (child t ts) = IsPlain t × ArePlain ts

  mutual
    unfolding requirements gather IsPlain add

    -- What a plain tree requires is not negative.
    pub requirements-IsNonneg :
        (t : LayoutTree W) (r : LayoutRequest)
        → IsPlain t
        → requirements needs t ≡ ret r
        → IsNonneg r.minimum
    requirements-IsNonneg (leaf w) r p e =
        subst (λ (q : LayoutRequest). IsNonneg q.minimum) (ret-eq_ret e) p
    requirements-IsNonneg (spacer q) r p e =
        subst (λ (q : LayoutRequest). IsNonneg q.minimum) (ret-eq_ret e) p
    requirements-IsNonneg (margin m t) r (n, p) e =
        let (q, f, g) = >>=-eq-ret (requirements needs t) _ e in
        margin-IsNonneg m q r n (requirements-IsNonneg t q p f) (margin_sum m q r g)
    requirements-IsNonneg (stack d ts) r p e =
        let (v, f, g) =
          >>=-eq-ret (gather needs (axis_number d) (vec (pos 0) (pos 0) (pos 0)) ts) _ e in
        subst (λ (q : LayoutRequest). IsNonneg q.minimum) (ret-eq_ret g)
          (gather-Fits ts (axis_number d) (vec (pos 0) (pos 0) (pos 0)) v p f)
    requirements-IsNonneg (shrink t) r p e = requirements-IsNonneg t r p e
    requirements-IsNonneg (hud a b c) r p e = absurd p

    -- Each further child keeps or adds to the size of a stack.
    pub gather-Fits :
        (ts : LayoutTrees W) (axis : ℕ) (v w : GridVector)
        → ArePlain ts
        → gather needs axis v ts ≡ ret w
        → Fits v w
    gather-Fits end axis v w p e =
        subst (λ (q : GridVector). Fits v q) (ret-eq_ret e) (omega arith, omega arith, omega arith)
    gather-Fits (child t ts) axis v w (p, ps) e =
        let (r, f, g) = >>=-eq-ret (requirements needs t) _ e in
        let (u, h, k) = >>=-eq-ret (accumulate axis v r) _ g in
        let first =
          Accumulated-Fits axis v r.minimum u (accumulate_lem axis v r u h)
            (requirements-IsNonneg t r p f) in
        let rest = gather-Fits ts axis u w ps k in
        (
          omega (int_cases, first.0, rest.0),
          omega (int_cases, first.1, rest.1),
          omega (int_cases, first.2, rest.2),
        )
