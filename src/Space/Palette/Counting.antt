-- ===== src/Space/Palette/Counting.antt =====
-- `Palette::increment`, `decrement_maybe_free` and `try_replace_unique`
-- (all-is-cubes/src/space/palette.rs) and the bookkeeping.
use all_is_cubes.Prelude.{
  refl, [], ◌∷◌, true, Bool, none, none≢some, set, get_elem?, arith, lt-get_elem?, length-set, inr,
  inl, get_elem?-set, ◌-◌, Bool-cases, ◌^◌, ◌==◌, get_elem?-lt, ◌⊎◌, ◌+◌, if◌then◌else◌, ◌<◌, ◌≢◌,
  some, ◌≡◌, ℕ,
}
use all_is_cubes.Prelude.Run.{ret}
use all_is_cubes.Space.Palette.{
  number, todo_after, Outcome, Evaluator, tombstone, new_data, unbind, bind_index,
  try_replace_unique, Data, increment, decrement_maybe_free, Table, Blocks,
}
use all_is_cubes.Space.Palette.Consistency.{IsReady, IsConsistent, Holds}

-- One more, or one less, occurrence of an index.
abbrev pub more : ℕ → (ℕ → ℕ) → ℕ → ℕ
more j occ i = if i == j then occ i + 1 else occ i

abbrev pub less : ℕ → (ℕ → ℕ) → ℕ → ℕ
less j occ i = if i == j then occ i - 1 else occ i

module _ (B : Blocks) where
  open B use {Block, block_eq}

  -- Entries that `live` says are needed hold the same blocks in both.
  abbrev pub SameBlocks : (ℕ → Type 0) → Table B → Table B → Type 0
  SameBlocks live p q = (i : ℕ) (b : Block) → live i → Holds B p i b → Holds B q i b

  -- `increment` of an index that holds a block, in a palette that is consistent but for that index,
  -- does not panic if the new number of occurrences is a usize. The palette is then consistent with
  -- one occurrence more, and every entry holds the block that it held.
  pub increment-IsConsistent :
      (p : Table B) (j : ℕ) (b : Block) (occ : ℕ → ℕ)
      → IsReady B (some j) p occ
      → Holds B p j b
      → occ j + 1 < 2 ^ 64
      → (q : Table B) × (increment B p j ≡ ret q)
        × IsConsistent B q (more j occ)
        × SameBlocks (λ i. Unit {0}) p q
  unfolding increment
  increment-IsConsistent p j b occ c (d, g, hb) small =
      let d' : Data B = record d { count = d.count + 1 } in
      let reads = get_elem?-set p.entries j d' in
      let len = length-set p.entries j d' in
      let inside = lt-get_elem? p.entries j g in
      let tally = c.counts j d g in
      (
        record p { entries = set p.entries j d' },
        rw g (ground arith),
        record {
          counts = λ i x h. ground (arith, reads i, c.counts i x);
          within = λ i h. ground (arith, c.within i, len);
          linked = λ x i h.
              let (y, gy, hy, used) = c.linked x i h in
              elim (Bool-cases (i == j)) [
                | inl same ↦ (d', ground (arith, reads i), ground arith, inl (omega arith))
                | inr other ↦ (y, ground (arith, reads i), hy, inl (ground arith))
              ];
          listed = λ i x h used. ground (arith, reads i, c.listed i x, c.listed j d g);
          small = ground (arith, len, c.small);
        },
        λ i x _ (y, gy, hy). elim (Bool-cases (i == j)) [
          | inl same ↦ (d', ground (arith, reads i), ground arith)
          | inr other ↦ (y, ground (arith, reads i), hy)
        ],
      )

  module _ (p : Table B) (o j : ℕ) (occ : ℕ → ℕ) (c : IsReady B (some j) p occ) (ne : o ≢ j)
      (d : Data B) (g : get_elem? p.entries o ≡ some d) where
    abbrev Live : ℕ → Type 0
    Live i = (0 < less o occ i) ⊎ (i ≡ j)

    abbrev Decremented : Type 0
    Decremented =
        (q : Table B) × (decrement_maybe_free B p o ≡ ret q)
        × IsReady B (some j) q (less o occ)
        × SameBlocks Live p q

    -- The last use: the entry becomes a tombstone, and its block is unbound.
    decrement_last : d.count ≡ 1 → Decremented
    unfolding decrement_maybe_free unbind tombstone
    decrement_last last =
        let reads = get_elem?-set p.entries o (tombstone B) in
        let len = length-set p.entries o (tombstone B) in
        let tally = c.counts o d g in
        let bound = c.listed o d g (inl (omega arith)) in
        (
          record {
            entries = set p.entries o (tombstone B);
            block_to_index = unbind ⦃e = block_eq⦄ d.block p.block_to_index;
            todo = p.todo;
          },
          rw g (ground arith),
          record {
            counts = λ i x h. ground (arith, reads i, c.counts i x, lt-get_elem? p.entries o g);
            within = λ i h. ground (arith, c.within i, len);
            linked = λ x i h. elim (Bool-cases (block_eq.beq d.block x)) [
              | inl gone ↦ absurd (none≢some (rw gone at h))
              | inr stays ↦
                  let (y, gy, hy, used) = c.linked x i (rw stays at h) in
                  (y, ground (arith, reads i, block_eq.beq_iff d.block x), hy, used)
            ];
            listed = λ i x h used. ground (
              arith,
              reads i,
              c.listed i x,
              block_eq.beq_iff d.block x.block,
              lt-get_elem? p.entries o g,
            );
            small = ground (arith, len, c.small);
          },
          λ i x live (y, gy, hy). (y, ground (arith, reads i), hy),
        )

    decrement_other : 1 < d.count → Decremented
    unfolding decrement_maybe_free
    decrement_other still =
        let d' : Data B = record d { count = d.count - 1 } in
        let reads = get_elem?-set p.entries o d' in
        let len = length-set p.entries o d' in
        let inside = lt-get_elem? p.entries o g in
        let tally = c.counts o d g in
        (
          record p { entries = set p.entries o d' },
          rw g (ground arith),
          record {
            counts = λ i x h. ground (arith, reads i, c.counts i x);
            within = λ i h. ground (arith, c.within i, len);
            linked = λ x i h.
                let (y, gy, hy, used) = c.linked x i h in
                elim (Bool-cases (i == o)) [
                  | inl same ↦ (d', ground (arith, reads i), ground arith, inl (omega arith))
                  | inr other ↦ (y, ground (arith, reads i), hy, used)
                ];
            listed = λ i x h used. ground (arith, reads i, c.listed i x, c.listed o d g);
            small = ground (arith, len, c.small);
          },
          λ i x _ (y, gy, hy). elim (Bool-cases (i == o)) [
            | inl same ↦ (d', ground (arith, reads i), ground arith)
            | inr other ↦ (y, ground (arith, reads i), hy)
          ],
        )

  -- `decrement_maybe_free` of an index that occurs, other than the one about to be used, does not
  -- panic. The palette is then consistent with one occurrence less, and the entries that still
  -- occur, or are about to be used, hold the blocks that they held.
  pub decrement-IsReady :
      (p : Table B) (o j : ℕ) (occ : ℕ → ℕ)
      → IsReady B (some j) p occ
      → o ≢ j
      → 0 < occ o
      → (q : Table B) × (decrement_maybe_free B p o ≡ ret q)
        × IsReady B (some j) q (less o occ)
        × SameBlocks (λ i. (0 < less o occ i) ⊎ (i ≡ j)) p q
  decrement-IsReady p o j occ c ne used =
      let (d, g) = get_elem?-lt p.entries o (c.within o used) in
      let tally = c.counts o d g in
      elim (Bool-cases (d.count == 1)) [
        | inl last ↦ decrement_last p o j occ c ne d g (ground arith)
        | inr still ↦ decrement_other p o j occ c ne d g (ground arith)
      ]

  -- In a consistent palette `try_replace_unique` gives the entry of a block that occurs once to a
  -- block that is unknown: the palette is consistent with the same occurrences, the entry holds the
  -- new block, and the other entries hold what they held.
  pub try_replace_unique-IsConsistent :
      (ev : Evaluator B) (p : Table B) (o : ℕ) (b : Block) (occ : ℕ → ℕ) (d : Data B)
      → IsConsistent B p occ
      → get_elem? p.entries o ≡ some d
      → d.count ≡ 1
      → p.block_to_index b ≡ none
      → (out : Outcome Block B.Evaluated Bool) × (try_replace_unique B ev p o b ≡ ret out)
        × (out.result ≡ true)
        × IsConsistent B out.palette occ
        × Holds B out.palette o b
        × SameBlocks (λ i. i ≢ o) p out.palette
  unfolding try_replace_unique bind_index unbind new_data
  try_replace_unique-IsConsistent ev p o b occ d c g once fresh =
      let d' : Data B = record (new_data B ev b) { count = 1 } in
      let reads = get_elem?-set p.entries o d' in
      let len = length-set p.entries o d' in
      let inside = lt-get_elem? p.entries o g in
      let tally = c.counts o d g in
      let bound = c.listed o d g (inl (omega arith)) in
      (
        record {
          palette = record {
            entries = set p.entries o d';
            block_to_index =
                bind_index ⦃e = block_eq⦄ b o (unbind ⦃e = block_eq⦄ d.block p.block_to_index);
            todo = todo_after B ev b o p.todo;
          };
          result = true;
          changes = number o ∷ [];
        },
        rw (g, fresh) (ground arith),
        refl,
        record {
          counts = λ i x h. ground (arith, reads i, c.counts i x);
          within = λ i h. ground (arith, c.within i, len);
          linked = λ x i h. elim (Bool-cases (block_eq.beq b x)) [
            | inl same ↦
                (d', ground (arith, reads i), (block_eq.beq_iff b x).0 same, inl (omega arith))
            | inr other ↦ elim (Bool-cases (block_eq.beq d.block x)) [
              | inl gone ↦ absurd (none≢some (rw (other, gone) at h))
              | inr stays ↦
                  let (y, gy, hy, used) = c.linked x i (rw (other, stays) at h) in
                  (y, ground (arith, reads i, block_eq.beq_iff d.block x), hy, used)
            ]
          ];
          listed = λ i x h used. ground (
            arith,
            reads i,
            c.listed i x,
            block_eq.beq_iff b x.block,
            block_eq.beq_iff d.block x.block,
          );
          small = ground (arith, len, c.small);
        },
        (d', ground (arith, reads o), refl),
        λ i x other (y, gy, hy). (y, ground (arith, reads i), hy),
      )
