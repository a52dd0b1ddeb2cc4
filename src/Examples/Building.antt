-- ===== src/Examples/Building.antt =====
-- The theorems on the building of palettes at concrete lists of blocks.
use all_is_cubes.Space.Palette.Sweeping.{free_all-IsConsistent}
use all_is_cubes.Prelude.Run.{panic, err, ok, ret}
use all_is_cubes.Space.Palette.Remapped.{
  from_blocks-long, from_blocks-Remaps, empty_table, Remaps, IsNumbered,
}
use all_is_cubes.Space.Palette.Consistency.{Holds, Keeps, IsConsistent}
use all_is_cubes.Space.Palette.Building.{
  palette_too_large, free_all_zero_counts, Remapping, from_blocks,
}
use all_is_cubes.Space.Palette.{Palette}
use all_is_cubes.Prelude.{
  length-replicate, zero, refl, inr, suc, inl, arith, Bool-cases, none, length, get_elem?, ◌==◌,
  some, ltb, [], ◌≡◌, ◌∷◌, replicate, if◌then◌else◌, ℕ, List,
}
use all_is_cubes.Space.Palette
use all_is_cubes.Examples.Spaces.{stone, evaluate, number_blocks}

-- The third block is the first one again.
abbrev quarry : List ℕ
quarry = 7 ∷ 9 ∷ 7 ∷ []

from_blocks-Remaps_example :
    (q : Palette ℕ ℕ) × (w : Remapping) × (from_blocks number_blocks evaluate quarry
      ≡ ret (ok (q, w)))
    × Remaps number_blocks (empty_table number_blocks) q (λ i. none) w 0 quarry
from_blocks-Remaps_example = from_blocks-Remaps number_blocks evaluate quarry (omega arith)

abbrev crowd : List ℕ
crowd = replicate 65536 7

from_blocks-long_example :
    from_blocks number_blocks evaluate crowd
    ≡ (if ltb 65536 (length crowd) then ret (err (palette_too_large (length crowd))) else panic)
from_blocks-long_example =
    from_blocks-long number_blocks evaluate crowd (omega (arith, length-replicate {A = ℕ} 65536 7))

-- Stone twice, and an entry that nothing uses.
abbrev built : Palette ℕ ℕ
built = record {
  entries = stone ∷ record stone { block = 9; count = 0 } ∷ [];
  block_to_index = λ b. if 7 == b then some 0 else if 9 == b then some 1 else none;
  todo = [];
}

abbrev twice : ℕ → ℕ
twice i = if i == 0 then 2 else 0

built-IsNumbered : IsNumbered number_blocks built
built-IsNumbered = record { linked = linked; listed = listed }
  where
    linked : (b : ℕ) (i : ℕ) → built.block_to_index b ≡ some i → Holds number_blocks built i b
    linked b i h = elim (Bool-cases (7 == b)) [
      | inl first ↦
          let at_first : 0 ≡ i = ground arith in rw (← at_first) (stone, refl, ground arith)
      | inr other ↦
          let at_second : 1 ≡ i = ground arith in
          rw (← at_second) (record stone { block = 9; count = 0 }, refl, ground arith)
    ]

    listed :
        (i : ℕ) (d : Palette.Data number_blocks)
        → get_elem? built.entries i ≡ some d
        → built.block_to_index d.block ≡ some i
    listed zero d h = ground arith
    listed (suc zero) d h = ground arith
    listed (suc (suc i)) d h = cc

free_all-IsConsistent_example :
    IsConsistent number_blocks (free_all_zero_counts number_blocks built) twice
    × Keeps number_blocks built (free_all_zero_counts number_blocks built)
free_all-IsConsistent_example =
    free_all-IsConsistent number_blocks built twice built-IsNumbered counts (λ i h. ground arith)
      (omega arith)
  where
    counts :
        (i : ℕ) (d : Palette.Data number_blocks)
        → get_elem? built.entries i ≡ some d
        → d.count ≡ twice i
    counts zero d h = ground arith
    counts (suc zero) d h = ground arith
    counts (suc (suc i)) d h = cc
