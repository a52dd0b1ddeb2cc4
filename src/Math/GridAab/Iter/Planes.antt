-- ===== src/Math/GridAab/Iter/Planes.antt =====
-- The nested loops of `GridIter::fold` (all-is-cubes/src/math/grid_aab.rs) against the calls of `next`.
use all_is_cubes.Prelude.{
  ℕ, ◌<◌, subst, ◌-◌, le→leb, zero, suc, ◌≡◌, refl, true, false, none, some, List, arith,
}
use all_is_cubes.Prelude.Run.{ret}
use all_is_cubes.Prelude.Int.{ℤ, pos, pos_part, ◌+ℤ◌, ◌-ℤ◌, ◌≤ℤ◌, ◌<ℤ◌, leb_ℤ, int_cases}
use all_is_cubes.Math.Vector.{vec, Cube}
use all_is_cubes.Math.GridAab.{GridAab}
use all_is_cubes.Math.GridAab.Volume.{IsValid}
use all_is_cubes.Math.GridAab.Index.{Inside, Between}
use all_is_cubes.Math.GridAab.Iter.{
  GridIter, next, fold_row, fold_plane, fold_planes, count_up, range_list,
}
use all_is_cubes.Math.GridAab.Iter.Order.{at_cube, within_row, new_row, new_plane, step_Between}

-- Where a range has one number left, or more.
last_of : (e z : ℤ) → pos_part (e -ℤ z) ≡ 1 → leb_ℤ e (z +ℤ pos 1) ≡ true
last_of e z h = le→leb _ _ (omega int_cases)

more_of : (e z : ℤ) (n : ℕ) → pos_part (e -ℤ z) ≡ suc (suc n) → leb_ℤ e (z +ℤ pos 1) ≡ false
more_of e z n h = above e (z +ℤ pos 1) (omega int_cases)
  where
    above : (a c : ℤ) → c <ℤ a → leb_ℤ a c ≡ false
    above a c l = ground arith

count_next : (e z : ℤ) (n : ℕ) → pos_part (e -ℤ z) ≡ suc n → pos_part (e -ℤ (z +ℤ pos 1)) ≡ n
count_next e z n h = omega int_cases

count_cases : (l s : ℤ) → Between l s l → (n : ℕ) × (pos_part ((l +ℤ s) -ℤ l) ≡ suc n)
count_cases l s h = (pos_part s - 1, omega int_cases)

pub next_ended :
    (b : GridAab) (c : Cube)
    → (b.lower_bounds.x +ℤ b.sizes.x) ≤ℤ c.x
    → next (at_cube b c) ≡ ret (none, at_cube b c)
unfolding next
next_ended b c h = rw (le→leb _ _ h) refl

module _ {B : Type 0} (f : B → Cube → B) where
  -- What a loop that calls `next` until it returns none makes of a state.
  pub data Folds : GridIter → B → B → Type 0 where
    done : {it : GridIter} {s : B} → next it ≡ ret (none, it) → Folds it s s
    step :
        {it it' : GridIter} {c : Cube} {s s' : B}
        → next it ≡ ret (some c, it')
        → Folds it' (f s c) s'
        → Folds it s s'

  module _ (b : GridAab) (v : IsValid b) (s' : B) where
    abbrev end : Cube
    end =
        vec (b.lower_bounds.x +ℤ b.sizes.x) (b.lower_bounds.y +ℤ b.sizes.y)
          (b.lower_bounds.z +ℤ b.sizes.z)

    -- A row, after which `next` goes on to the cube `d`.
    row-Folds :
        (n : ℕ) (x y z : ℤ) (s : B) (d : Cube)
        → Inside b (vec x y z)
        → pos_part (end.z -ℤ z) ≡ suc n
        → ((t : ℤ)
            → Inside b (vec x y t)
            → leb_ℤ end.z (t +ℤ pos 1) ≡ true
            → next (at_cube b (vec x y t)) ≡ ret (some (vec x y t), at_cube b d))
        → Folds (at_cube b d) (fold_row f x y (count_up (suc n) z) s) s'
        → Folds (at_cube b (vec x y z)) s s'
    unfolding fold_row
    row-Folds zero x y z s d i e over h = step (over z i (last_of end.z z e)) h
    row-Folds (suc n) x y z s d i e over h =
        let more = more_of end.z z n e in
        step (within_row b (vec x y z) v i more).0 (
          row-Folds n x y (z +ℤ pos 1) (f s (vec x y z)) d
            (i.0, i.1, step_Between b.lower_bounds.z b.sizes.z z i.2 more)
            (count_next end.z z (suc n) e) over h)

    abbrev plane_start : ℤ → Cube
    plane_start x = vec x b.lower_bounds.y b.lower_bounds.z

    left_of :
        (x : ℤ) (k : ℕ) → 0 < k → pos_part (end.x -ℤ x) ≡ suc k → leb_ℤ end.x (x +ℤ pos 1) ≡ false
    left_of x zero l e = absurd (omega arith)
    left_of x (suc k) l e = more_of end.x x k e

    abbrev zs : List ℤ
    zs = range_list (b.lower_bounds.z, end.z)

    abbrev ys : List ℤ
    ys = range_list (b.lower_bounds.y, end.y)

    -- A whole row.
    row_start-Folds :
        (x y : ℤ) (s : B) (d : Cube)
        → Inside b (vec x y b.lower_bounds.z)
        → ((t : ℤ)
            → Inside b (vec x y t)
            → leb_ℤ end.z (t +ℤ pos 1) ≡ true
            → next (at_cube b (vec x y t)) ≡ ret (some (vec x y t), at_cube b d))
        → Folds (at_cube b d) (fold_row f x y zs s) s'
        → Folds (at_cube b (vec x y b.lower_bounds.z)) s s'
    row_start-Folds x y s d i over h =
        let (n, k) = count_cases b.lower_bounds.z b.sizes.z i.2 in
        row-Folds n x y b.lower_bounds.z s d i k over (rw k at h)

    -- The rows of a plane from `y` on.
    rows-Folds :
        (m : ℕ) (x y : ℤ) (s : B)
        → Inside b (vec x y b.lower_bounds.z)
        → pos_part (end.y -ℤ y) ≡ suc m
        → Folds (at_cube b (plane_start (x +ℤ pos 1))) (fold_plane f x (count_up (suc m) y) zs s) s'
        → Folds (at_cube b (vec x y b.lower_bounds.z)) s s'
    unfolding fold_plane
    rows-Folds zero x y s i e h =
        row_start-Folds x y s (plane_start (x +ℤ pos 1)) i
          (λ t j g. (new_plane b (vec x y t) v j g (last_of end.y y e)).0) h
    rows-Folds (suc m) x y s i e h =
        let more = more_of end.y y m e in
        row_start-Folds x y s (vec x (y +ℤ pos 1) b.lower_bounds.z) i
          (λ t j g. (new_row b (vec x y t) v j g more).0)
          (rows-Folds m x (y +ℤ pos 1) (fold_row f x y zs s)
            (i.0, step_Between b.lower_bounds.y b.sizes.y y i.1 more, i.2)
            (count_next end.y y (suc m) e) h)

    -- A whole plane.
    plane-Folds :
        (x : ℤ) (s : B)
        → Inside b (plane_start x)
        → Folds (at_cube b (plane_start (x +ℤ pos 1))) (fold_plane f x ys zs s) s'
        → Folds (at_cube b (plane_start x)) s s'
    plane-Folds x s i h =
        let (m, k) = count_cases b.lower_bounds.y b.sizes.y i.1 in
        rows-Folds m x b.lower_bounds.y s i k (rw k at h)

    -- The planes from `x` on; past the end there is none.
    pub planes-Folds :
        (k : ℕ) (x : ℤ) (s : B)
        → pos_part (end.x -ℤ x) ≡ k
        → (0 < k → Inside b (plane_start x))
        → fold_planes f (count_up k x) ys zs s ≡ s'
        → Folds (at_cube b (plane_start x)) s s'
    unfolding fold_planes
    planes-Folds zero x s e i h =
        subst (λ (r : B). Folds (at_cube b (plane_start x)) s r) h
          (done (next_ended b (plane_start x) (omega int_cases)))
    planes-Folds (suc k) x s e i h =
        let j = i (omega arith) in
        plane-Folds x s j (
          planes-Folds k (x +ℤ pos 1) (fold_plane f x ys zs s) (count_next end.x x k e)
            (λ l. (step_Between b.lower_bounds.x b.sizes.x x j.0 (left_of x k l e), j.1, j.2)) h)
