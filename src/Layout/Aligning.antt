-- ===== src/Layout/Aligning.antt =====
-- `LayoutGrant::shrink_to` (all-is-cubes-ui/src/vui/layout.rs): the shrunk interval of an axis.
use all_is_cubes.Prelude.{◌≡◌, refl, arith}
use all_is_cubes.Prelude.Run.{ret, i32-ret}
use all_is_cubes.Prelude.Int.{ℤ, pos, negsuc, ◌+ℤ◌, ◌-ℤ◌, ◌≤ℤ◌, InI32, int_cases, eq_of_parts}
use all_is_cubes.Math.GridAab.Volume.{IsAxis}
use all_is_cubes.Layout.{Align, low, center, high, halve, origin, place}

-- The shrunk interval of an axis: it lies in the given one, at the side that the gravity names, or
-- as near to the middle as can be.
abbrev pub Aligned : Align → ℤ → ℤ → ℤ → ℤ → Type 0
Aligned low l s l' s' = l' ≡ l
Aligned center l s l' s' =
    (pos 0 ≤ℤ ((s -ℤ s') -ℤ ((l' -ℤ l) +ℤ (l' -ℤ l))))
    × (((s -ℤ s') -ℤ ((l' -ℤ l) +ℤ (l' -ℤ l))) ≤ℤ pos 1)
Aligned high l s l' s' = l' +ℤ s' ≡ l +ℤ s

pub record Shrinks (g : Align) (l s l' s' : ℤ) : Type 0 where
  pub axis : IsAxis l' s'
  pub lower_in : InI32 l'
  pub lower : l ≤ℤ l'
  pub upper : (l' +ℤ s') ≤ℤ (l +ℤ s)
  pub aligned : Aligned g l s l' s'

halve_lem :
    (z : ℤ)
    → pos 0 ≤ℤ z
    → (pos 0 ≤ℤ halve z) × ((halve z +ℤ halve z) ≤ℤ z) × (z ≤ℤ (halve z +ℤ halve z +ℤ pos 1))
halve_lem (pos n) h = (omega int_cases, omega int_cases, omega int_cases)
halve_lem (negsuc n) h = absurd (omega arith)

module _ (l s s' : ℤ) (h : InI32 l) (k : InI32 s) (ax : IsAxis l s) (nn : pos 0 ≤ℤ s')
    (le : s' ≤ℤ s) where
  -- The highest lower bound.
  abbrev pub highest : ℤ
  highest = (l +ℤ s) -ℤ s'

  highest_in : InI32 highest
  highest_in = (omega int_cases, omega int_cases)

  pub low-Shrinks : Shrinks low l s l s'
  low-Shrinks = record {
    axis = (nn, (omega int_cases, omega int_cases));
    lower_in = h;
    lower = omega arith;
    upper = omega int_cases;
    aligned = refl;
  }

  pub high-Shrinks : Shrinks high l s highest s'
  high-Shrinks = record {
    axis = (nn, (omega int_cases, omega int_cases));
    lower_in = highest_in;
    lower = omega int_cases;
    upper = omega int_cases;
    aligned = eq_of_parts (highest +ℤ s') (l +ℤ s) (omega int_cases);
  }

  gap_in : InI32 (highest -ℤ l)
  gap_in = (omega int_cases, omega int_cases)

  gap_le : pos 0 ≤ℤ (highest -ℤ l)
  gap_le = omega int_cases

  center-Shrinks : Shrinks center l s (l +ℤ halve (highest -ℤ l)) s'
  center-Shrinks =
      let half = halve_lem (highest -ℤ l) gap_le in
      record {
        axis = (nn, (omega (int_cases, half), omega (int_cases, half)));
        lower_in = (omega (int_cases, half), omega (int_cases, half));
        lower = omega (int_cases, half);
        upper = omega (int_cases, half);
        aligned = (omega (int_cases, half), omega (int_cases, half));
      }

  pub place-Shrinks :
      (g : Align) → (l' : ℤ) × (place g l (l +ℤ s) s' ≡ ret l') × Shrinks g l s l' s'
  unfolding origin
  place-Shrinks low = (l, rw (i32-ret highest highest_in) refl, low-Shrinks)
  place-Shrinks high = (highest, rw (i32-ret highest highest_in) refl, high-Shrinks)
  place-Shrinks center = (
    l +ℤ halve (highest -ℤ l),
    rw (i32-ret highest highest_in, i32-ret (highest -ℤ l) gap_in)
        (i32-ret (l +ℤ halve (highest -ℤ l)) center-Shrinks.lower_in),
    center-Shrinks,
  )
