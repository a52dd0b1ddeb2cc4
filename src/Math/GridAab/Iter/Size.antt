-- ===== src/Math/GridAab/Iter/Size.antt =====
-- `GridIter::size_hint` (all-is-cubes/src/math/grid_aab.rs) against the calls of `next`.
use all_is_cubes.Prelude.{
  ℕ, ◌+◌, ◌*◌, ◌<◌, ◌≤◌, ◌^◌, ◌⊎◌, inl, inr, subst, lt→ltb, zero, suc, ◌≡◌, refl, false, some,
  arith,
}
use all_is_cubes.Prelude.Run.{ret, i32, i32-ret}
use all_is_cubes.Prelude.Int.{ℤ, pos, pos_part, ◌+ℤ◌, ◌-ℤ◌, ◌≤ℤ◌, ltb_ℤ, InI32, int_cases, int_laws}
use all_is_cubes.Math.Vector.{Cube}
use all_is_cubes.Math.GridAab.{GridAab}
use all_is_cubes.Math.GridAab.Volume.{IsValid, IsAxis, cubes}
use all_is_cubes.Math.GridAab.Index.{Inside, Between, position, position-lt, offset}
use all_is_cubes.Math.GridAab.Iter.{size_hint, cubes_remaining, usize, unwrap_usize}
use all_is_cubes.Math.GridAab.Iter.Order.{at_cube, Inside-InRange, next-Follows}
use all_is_cubes.Math.GridAab.Iter.Planes.{Folds, done, step, next_ended}

usize-ret : (n : ℕ) → n < 2 ^ 64 → usize n ≡ ret n
unfolding usize
usize-ret n h = rw (lt→ltb n (2 ^ 64) h) refl

-- What is left of an axis from a coordinate on.
abbrev left : ℤ → ℤ → ℤ → ℤ
left l s c = (l +ℤ s) -ℤ c

left_in : (l s c : ℤ) → Between l s c → IsAxis l s → InI32 s → InI32 (left l s c)
left_in l s c h a k = omega int_cases

next_in : (l s c : ℤ) → Between l s c → IsAxis l s → InI32 s → InI32 (left l s c -ℤ pos 1)
next_in l s c h a k = omega int_cases

left_offset : (l s c : ℤ) → Between l s c → offset l c + pos_part (left l s c) ≡ pos_part s
left_offset l s c h = omega int_cases

next_offset :
    (l s c : ℤ) → Between l s c → offset l c + pos_part (left l s c -ℤ pos 1) + 1 ≡ pos_part s
next_offset l s c h = omega int_cases

left_pos : (l s c : ℤ) → Between l s c → unwrap_usize (left l s c) ≡ ret (pos_part (left l s c))
unfolding unwrap_usize
left_pos l s c h = let g : pos 0 ≤ℤ left l s c = omega int_cases in unwraps (left l s c) g
  where
    unwraps : (z : ℤ) → pos 0 ≤ℤ z → unwrap_usize z ≡ ret (pos_part z)
    unwraps z g = ground arith

next_pos : (l s c : ℤ) → Between l s c → ltb_ℤ (left l s c -ℤ pos 1) (pos 0) ≡ false
next_pos l s c h =
    let g : pos 0 ≤ℤ left l s c -ℤ pos 1 = omega int_cases in above (left l s c -ℤ pos 1) g
  where
    above : (z : ℤ) → pos 0 ≤ℤ z → ltb_ℤ z (pos 0) ≡ false
    above z g = ground arith

whole : (l s : ℤ) → IsAxis l s → pos_part (left l s l) ≡ pos_part s
whole l s a = omega int_cases

-- The cubes left, from the planes, the rows and the cubes of the row that are left.
remains :
    (x y z w h k x' y' z' : ℕ)
    → x + x' + 1 ≡ w
    → y + y' + 1 ≡ h
    → z + z' ≡ k
    → ((x * h + y) * k + z) + ((x' * h + y') * k + z') ≡ w * h * k
remains x y z w h k x' y' z' ex ey ez = rw (← ex, ← ey, ← ez) (grind arith)

grows : (n k : ℕ) → 0 < k → n ≤ n * k
grows n zero p = absurd (omega arith)
grows n (suc k) p = grind arith

within :
    (a h b k z t : ℕ)
    → 0 < k
    → (a * h + b) * k + z < t
    → (a * h < t) × (a * h + b < t) × ((a * h + b) * k < t)
within a h b k z t p q =
    let g = grows (a * h + b) k p in (omega (arith, g), omega (arith, g), omega arith)

module _ (b : GridAab) (v : IsValid b) where
  -- The number of the cubes from a cube on, as it is computed.
  abbrev remaining : Cube → ℕ
  remaining c =
      (pos_part (left b.lower_bounds.x b.sizes.x c.x -ℤ pos 1) * pos_part b.sizes.y
          + pos_part (left b.lower_bounds.y b.sizes.y c.y -ℤ pos 1))
        * pos_part b.sizes.z
      + pos_part (left b.lower_bounds.z b.sizes.z c.z)

  position-remaining : (c : Cube) → Inside b c → position b c + remaining c ≡ cubes b.sizes
  position-remaining c i =
      remains (offset b.lower_bounds.x c.x) (offset b.lower_bounds.y c.y)
        (offset b.lower_bounds.z c.z) _ _ _ _ _ _ (next_offset _ _ _ i.0) (next_offset _ _ _ i.1)
        (left_offset _ _ _ i.2)

  size_hint-remaining :
      (c : Cube) → Inside b c → size_hint (at_cube b c) ≡ ret (remaining c, some (remaining c))
  unfolding size_hint cubes_remaining
  size_hint-remaining c i =
      let lt : remaining c < 2 ^ 64 = omega (arith, position-remaining c i, v.volume_lt) in
      let k : 0 < pos_part b.sizes.z = omega (int_cases, i.2) in
      let (p, q, r) = within _ _ _ _ _ _ k lt in
      rw
        (
          i32-ret _ (left_in _ _ _ i.0 v.x_axis v.sizes_in.0),
          i32-ret _ (next_in _ _ _ i.0 v.x_axis v.sizes_in.0),
          next_pos _ _ _ i.0,
          whole b.lower_bounds.y b.sizes.y v.y_axis,
          usize-ret _ p,
          i32-ret _ (left_in _ _ _ i.1 v.y_axis v.sizes_in.1),
          i32-ret _ (next_in _ _ _ i.1 v.y_axis v.sizes_in.1),
          usize-ret _ q,
          whole b.lower_bounds.z b.sizes.z v.z_axis,
          usize-ret _ r,
          i32-ret _ (left_in _ _ _ i.2 v.z_axis v.sizes_in.2),
          left_pos _ _ _ i.2,
          usize-ret _ lt,
        )
        refl

  abbrev tally : ℕ → Cube → ℕ
  tally n c = n + 1

  -- The cubes that are left, one call of `next` each.
  tallies :
      (n k r : ℕ) (c : Cube)
      → Inside b c
      → position b c + n ≡ cubes b.sizes
      → k + n ≡ r
      → Folds tally (at_cube b c) k r
  tallies zero k r c i e q =
      let lt = position-lt b c v (Inside-InRange b c v i) i in absurd (omega arith)
  tallies (suc n) k r c i e q =
      let (d, h, fol) = next-Follows b c v i in
      step h (elim fol [
        | inl (j, p) ↦ tallies n (k + 1) r d j (omega (arith, p)) (omega arith)
        | inr (p, g) ↦
            subst (λ (t : ℕ). Folds tally (at_cube b d) (k + 1) t) (omega (arith, p))
              (done (next_ended b d g))
      ])

  size_hint_ended :
      (c : Cube) → c.x ≡ b.lower_bounds.x +ℤ b.sizes.x → size_hint (at_cube b c) ≡ ret (0, some 0)
  unfolding size_hint i32 ◌-ℤ◌
  size_hint_ended c e = rw (e, no_planes (b.lower_bounds.x +ℤ b.sizes.x)) refl
    where
      no_planes : (z : ℤ) → z -ℤ z ≡ pos 0
      no_planes z = omega int_laws

-- On the way through a valid box, `size_hint` does not panic and is exact: both of its bounds are
-- the number of cubes that a loop over `next` still visits. At the end that is 0.
pub size_hint-Folds :
    (b : GridAab) (c : Cube)
    → IsValid b
    → Inside b c ⊎ (c.x ≡ b.lower_bounds.x +ℤ b.sizes.x)
    → (n : ℕ) × (size_hint (at_cube b c) ≡ ret (n, some n)) × Folds (λ k _. k + 1) (at_cube b c) 0 n
size_hint-Folds b c v (inl i) = (
  remaining b v c,
  size_hint-remaining b v c i,
  tallies b v _ 0 _ c i (position-remaining b v c i) (omega arith),
)
size_hint-Folds b c v (inr e) =
    (0, size_hint_ended b v c e, done (next_ended b c (rw (e) (omega arith))))
