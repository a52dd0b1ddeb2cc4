-- ===== src/Resolution/Powers.antt =====
-- `Resolution` (all-is-cubes/src/block/resolution.rs) as numbers.
use all_is_cubes.Prelude.{sym, ◌∙◌, inr, ◌⊎◌, inl, ◌<◌, ◌/◌, ◌≡◌, ◌↔◌, ℕ, ◌*◌, some, arith}
use all_is_cubes.Prelude.Run.{err, Result, ok}
use all_is_cubes.Resolution.{
  Resolution, to_grid, discriminant, try_from, mul, div, double, halve, ok_of,
}

-- A number converts to a resolution exactly if it is that resolution's number.
pub try_from_iff : (n : ℕ) (r : Resolution) → (try_from n ≡ ok r) ↔ (n ≡ to_grid r)
unfolding try_from to_grid discriminant
try_from_iff n r = (λ h. ground arith, λ h. ground arith)

ok_of_iff {ℓ κ} :
    {E : Type ℓ} {A : Type κ} (x : Result E A) (a : A) → (ok_of x ≡ some a) ↔ (x ≡ ok a)
ok_of_iff (ok b) a = (λ h. cc, λ h. cc)
ok_of_iff (err e) a = (λ h. cc, λ h. cc)

-- The product of two resolutions is the resolution of the product, where there is one.
pub mul_iff : (a b r : Resolution) → (mul a b ≡ some r) ↔ (to_grid a * to_grid b ≡ to_grid r)
unfolding mul
mul_iff a b r =
    let n = to_grid a * to_grid b in
    (
      λ h. (try_from_iff n r).0 ((ok_of_iff (try_from n) r).0 h),
      λ h. (ok_of_iff (try_from n) r).1 ((try_from_iff n r).1 h),
    )

quotient_cases :
    (a b : Resolution)
    → ((to_grid a < to_grid b) × (to_grid a / to_grid b ≡ 0))
      ⊎ ((to_grid a / to_grid b) * to_grid b ≡ to_grid a)
unfolding to_grid discriminant
quotient_cases Resolution.r1 b = ground arith
quotient_cases _ b = ground arith

to_grid_pos : (a : Resolution) → 0 < to_grid a
unfolding to_grid discriminant
to_grid_pos a = ground arith

cancel : (x y b : ℕ) → 0 < b → x * b ≡ y * b → x ≡ y
cancel x y b h e = grind arith

not_less : (x b a : ℕ) → 0 < x → a < b → ¬ (x * b ≡ a)
not_less x b a h less e = grind arith

quotient_iff :
    (a b r : Resolution) → (to_grid a / to_grid b ≡ to_grid r) ↔ (to_grid r * to_grid b ≡ to_grid a)
quotient_iff a b r = elim (quotient_cases a b) [
  | inl less ↦ (
    λ h. absurd (omega (arith, less.1, h, to_grid_pos r)),
    λ h. absurd (not_less _ _ _ (to_grid_pos r) less.0 h),
  )
  | inr whole ↦ (λ h. rw (← h) whole, λ h. cancel _ _ _ (to_grid_pos b) (whole ∙ sym h))
]

-- The quotient of two resolutions is the resolution by which the divisor is multiplied to give the
-- dividend, where there is one.
pub div_iff : (a b r : Resolution) → (div a b ≡ some r) ↔ (to_grid r * to_grid b ≡ to_grid a)
unfolding div
div_iff a b r =
    let n = to_grid a / to_grid b in
    (
      λ h. (quotient_iff a b r).0 ((try_from_iff n r).0 ((ok_of_iff (try_from n) r).0 h)),
      λ h. (ok_of_iff (try_from n) r).1 ((try_from_iff n r).1 ((quotient_iff a b r).1 h)),
    )

-- `double` and `halve` are partial inverses, and double the number.
pub double_iff :
    (a b : Resolution)
    → ((double a ≡ some b) ↔ (to_grid b ≡ 2 * to_grid a))
      × ((double a ≡ some b) ↔ (halve b ≡ some a))
unfolding double halve to_grid discriminant
double_iff a b = ((λ h. ground arith, λ h. ground arith), (λ h. ground arith, λ h. ground arith))
