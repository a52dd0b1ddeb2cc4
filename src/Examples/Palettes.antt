-- ===== src/Examples/Palettes.antt =====
-- The theorems on palettes at a concrete table.
use all_is_cubes.Space.Palette.Ensure.{ensure_index-IsReady}
use all_is_cubes.Space.Storage.Soundness.{count}
use all_is_cubes.Space.Palette.Consistency.{Keeps, Holds, IsReady, IsConsistent}
use all_is_cubes.Space.Palette.{Palette, Outcome}
use all_is_cubes.Examples.Spaces.{
  table-IsConsistent, occurrences, table, stone, evaluate, number_blocks,
}
use all_is_cubes.Space.Palette
use all_is_cubes.Prelude.{
  zero, inl, ◌⊎◌, ◌==◌, length, if◌then◌else◌, ◌<◌, [], ◌∷◌, true, suc, none, some, get_elem?, ℕ,
  ◌≡◌, refl, arith,
}

ensure_index-IsReady_example :
    IsReady number_blocks
      (some 1)
      (Palette.ensure_index number_blocks evaluate table 9 true).palette
      occurrences
    × Holds number_blocks (Palette.ensure_index number_blocks evaluate table 9 true).palette 1 9
    × Keeps number_blocks table (Palette.ensure_index number_blocks evaluate table 9 true).palette
unfolding Palette.ensure_index
ensure_index-IsReady_example =
    ensure_index-IsReady number_blocks evaluate table 9 occurrences 1 table-IsConsistent refl

-- `table` with an index about to be used.
table-IsReady : (Palette.ensure_index number_blocks evaluate table 9 true).result ≡ some 1
unfolding Palette.ensure_index
table-IsReady = refl

abbrev ready : Palette ℕ ℕ
ready = (Palette.ensure_index number_blocks evaluate table 9 true).palette

-- Stone once.
abbrev single : Palette ℕ ℕ
single = record {
  entries = record stone { count = 1 } ∷ [];
  block_to_index = λ b. if 7 == b then some 0 else none;
  todo = [];
}

abbrev once : ℕ → ℕ
once i = count i (0 ∷ [])

single-IsConsistent : IsConsistent number_blocks single once
single-IsConsistent = record {
  counts = counts;
  within = within_lem;
  linked = λ b i h. (record stone { count = 1 }, ground arith, ground arith, inl (omega arith));
  listed = listed;
  small = omega arith;
}
  where
    counts :
        (i : ℕ) (d : Palette.Data number_blocks)
        → get_elem? single.entries i ≡ some d
        → d.count ≡ once i
    counts zero d h = ground arith
    counts (suc i) d h = cc

    within_lem : (i : ℕ) → 0 < once i → i < length single.entries
    within_lem i h = ground arith

    listed :
        (i : ℕ) (d : Palette.Data number_blocks)
        → get_elem? single.entries i ≡ some d
        → (0 < d.count) ⊎ (none ≡ some i)
        → single.block_to_index d.block ≡ some i
    listed zero d h used = ground arith
    listed (suc i) d h used = cc
