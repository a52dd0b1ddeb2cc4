-- ===== src/Space/Palette/Building.antt =====
use all_is_cubes.Prelude.Run.{ok, err, Result, ◌>>=◌, err, panic, ret, Result, Run}
use all_is_cubes.Space.Palette.{
  max_index, Data, tombstone, unbind, ensure_index, Table, Evaluator, Blocks, BlockIndex,
}
use all_is_cubes.Prelude.{
  ◌-◌, false, length, ◌^◌, none, ◌+◌, [], ◌∷◌, ltb, some, ◌==◌, List, if◌then◌else◌, Option, ℕ,
}

-- all-is-cubes/src/space/palette.rs: `Palette::from_blocks` and `free_all_zero_counts`, with which a
-- space is built from a list of blocks.
--
-- The counter `0..` of `from_blocks` is a `u16` that steps before each look for a block, also for the
-- one after the last; its step is checked. The hash map of the remapping is a function.
pub data PaletteError : Type 0 where
  palette_too_large : ℕ → PaletteError

abbrev pub Remapping : Type 0
Remapping = BlockIndex → Option BlockIndex

abbrev pub remap_to : BlockIndex → BlockIndex → Remapping → Remapping
remap_to i j m k = if i == k then some j else m k

module _ (B : Blocks) where
  open B use {Block, block_eq}

  abbrev pub Built : Type 0
  Built = Table B × Remapping

  -- The loop, at the counter `i`.
  unfoldable pub from_blocks_at :
      Evaluator B → Table B → Remapping → BlockIndex → List Block → Run Built
  unfolding ensure_index
  from_blocks_at ev p m i [] = if ltb (i + 1) (2 ^ 16) then ret (p, m) else panic
  from_blocks_at ev p m i (b ∷ bs) =
      if ltb (i + 1) (2 ^ 16)
      then elim ((ensure_index B ev p b false).result) [
        | none ↦ panic
        | some j ↦
            from_blocks_at ev (ensure_index B ev p b false).palette
              (if i == j then m else remap_to i j m) (i + 1) bs
      ]
      else panic

  -- `len.saturating_sub(1) > BlockIndex::MAX`
  unfoldable pub from_blocks : Evaluator B → List Block → Run (Result PaletteError Built)
  unfolding from_blocks_at
  from_blocks ev blocks =
      let empty_table : Table B = record { entries = []; block_to_index = λ b. none; todo = [] } in
      if ltb max_index (length blocks - 1)
      then ret (err (palette_too_large (length blocks)))
      else (from_blocks_at ev empty_table (λ i. none) 0 blocks >>= λ built. ret (ok built))

  -- The loop of `free_all_zero_counts`.
  unfoldable pub free_entries :
      List (Data B) → (Block → Option BlockIndex) → List (Data B) × (Block → Option BlockIndex)
  unfolding unbind tombstone
  free_entries [] m = ([], m)
  free_entries (d ∷ ds) m =
      let kept = free_entries ds m in
      let freed = free_entries ds (unbind ⦃e = block_eq⦄ d.block m) in
      if d.count == 0 then (tombstone B ∷ freed.0, freed.1) else (d ∷ kept.0, kept.1)

  unfoldable pub free_all_zero_counts : Table B → Table B
  unfolding free_entries
  free_all_zero_counts p =
      let (entries, block_to_index) = free_entries p.entries p.block_to_index in
      record p { entries = entries; block_to_index = block_to_index }
