-- ===== src/Math/GridAab/Iter/Folding.antt =====
-- `GridIter::fold` (all-is-cubes/src/math/grid_aab.rs) against the calls of `next`.
use all_is_cubes.Prelude.{
  ℕ, ◌+◌, sym, ◌<◌, subst, zero, suc, ◌≡◌, refl, true, false, none, some, Bool-cases, inl, inr, ◌⊎◌,
  arith,
}
use all_is_cubes.Prelude.Run.{ret}
use all_is_cubes.Prelude.Int.{ℤ, pos_part, ◌+ℤ◌, ◌-ℤ◌, ◌≤ℤ◌, int_cases, eqb_ℤ_iff}
use all_is_cubes.Math.Vector.{vec, Cube, vec_eq}
use all_is_cubes.Math.GridAab.{GridAab}
use all_is_cubes.Math.GridAab.Volume.{IsValid, cubes}
use all_is_cubes.Math.GridAab.Index.{Inside, position, position-lt}
use all_is_cubes.Math.GridAab.Iter.{GridIter, next, fold, advance, at_plane_start}
use all_is_cubes.Math.GridAab.Iter.Order.{at_cube, next-Follows, Follows, Inside-InRange}
use all_is_cubes.Math.GridAab.Iter.Planes.{Folds, done, step, next_ended, planes-Folds}

module _ {B : Type 0} (f : B → Cube → B) where
  advance_on :
      (fuel : ℕ) (it it' : GridIter) (c : Cube) (s s' : B)
      → at_plane_start it ≡ false
      → next it ≡ ret (some c, it')
      → fold f fuel it' (f s c) ≡ ret (some s')
      → fold f (suc fuel) it s ≡ ret (some s')
  unfolding fold advance
  advance_on fuel it it' c s s' e n h = rw (e, n, advance) h

  advance_out :
      (fuel : ℕ) (it : GridIter) (s : B)
      → at_plane_start it ≡ false
      → next it ≡ ret (none, it)
      → fold f (suc fuel) it s ≡ ret (some s)
  unfolding fold advance
  advance_out fuel it s e n = rw (e, n, advance) refl

  module _ (b : GridAab) (v : IsValid b) where
    -- The iterator stands at a cube, with fuel for those that are left, or past the end.
    abbrev Stands : ℕ → Cube → Type 0
    Stands fuel c =
        (Inside b c × (cubes b.sizes < position b c + fuel))
        ⊎ (((b.lower_bounds.x +ℤ b.sizes.x) ≤ℤ c.x) × (0 < fuel))

    abbrev Answers : ℕ → Cube → B → Type 0
    Answers fuel c s =
        (s' : B) × (fold f fuel (at_cube b c) s ≡ ret (some s')) × Folds f (at_cube b c) s s'

    at_start :
        (fuel : ℕ) (x : ℤ) (s : B)
        → (0 < pos_part ((b.lower_bounds.x +ℤ b.sizes.x) -ℤ x)
            → Inside b (vec x b.lower_bounds.y b.lower_bounds.z))
        → at_plane_start (at_cube b (vec x b.lower_bounds.y b.lower_bounds.z)) ≡ true
        → Answers (suc fuel) (vec x b.lower_bounds.y b.lower_bounds.z) s
    unfolding fold
    at_start fuel x s i e = (
      _,
      rw (e, advance) refl,
      planes-Folds f b v _ (pos_part ((b.lower_bounds.x +ℤ b.sizes.x) -ℤ x)) x s refl i refl,
    )

    plane_start_eq :
        (c : Cube)
        → at_plane_start (at_cube b c) ≡ true
        → c ≡ vec c.x b.lower_bounds.y b.lower_bounds.z
    plane_start_eq c e =
        vec_eq refl ((eqb_ℤ_iff c.y b.lower_bounds.y).0 (ground arith))
          ((eqb_ℤ_iff c.z b.lower_bounds.z).0 (ground arith))

    still_left :
        (fuel : ℕ) (c : Cube)
        → Stands fuel c
        → 0 < pos_part ((b.lower_bounds.x +ℤ b.sizes.x) -ℤ c.x)
        → Inside b c
    still_left fuel c (inl (i, l)) h = i
    still_left fuel c (inr (e, l)) h = absurd (omega int_cases)

    Follows-Stands :
        (fuel : ℕ) (c d : Cube) → Stands (suc fuel) c → Follows b c d → Inside b c → Stands fuel d
    Follows-Stands fuel c d (inl (i, l)) (inl (j, p)) _ = inl (j, omega (arith, p))
    Follows-Stands fuel c d (inl (i, l)) (inr (p, g)) _ = inr (g, omega (arith, p))
    Follows-Stands fuel c d (inr (e, l)) f i = absurd (omega (int_cases, e, i.0.1))

    answers : (fuel : ℕ) (c : Cube) (s : B) → Stands fuel c → Answers fuel c s
    answers zero c s (inl (i, l)) =
        let lt = position-lt b c v (Inside-InRange b c v i) i in absurd (omega arith)
    answers zero c s (inr (e, l)) = absurd (omega arith)
    answers (suc fuel) c s h = elim (Bool-cases (at_plane_start (at_cube b c))) [
      | inl e ↦
          let q = plane_start_eq c e in
          subst (λ (d : Cube). Answers (suc fuel) d s) (sym q)
            (at_start fuel c.x s (λ l. rw q at (still_left (suc fuel) c h l)) (rw q at e))
      | inr e ↦ elim (h) [
        | inl (i, l) ↦
            let (d, n, fol) = next-Follows b c v i in
            let (s', eq, folds) =
              answers fuel d (f s c) (Follows-Stands fuel c d (inl (i, l)) fol i) in
            (s', advance_on fuel _ _ c s s' e n eq, step n folds)
        | inr (g, l) ↦ let n = next_ended b c g in (s, advance_out fuel _ s e n, done n)
      ]
    ]

  -- From any cube of a valid box, with fuel for the cubes and one more, `fold` does not panic and
  -- returns what a loop of `next` makes of the state, cube by cube until `next` returns none.
  pub fold-Folds :
      (b : GridAab) (c : Cube) (init : B)
      → IsValid b
      → Inside b c
      → (s : B) × (fold f (cubes b.sizes + 1) (at_cube b c) init ≡ ret (some s))
        × Folds f (at_cube b c) init s
  fold-Folds b c init v i = answers b v (cubes b.sizes + 1) c init (inl (i, omega arith))
