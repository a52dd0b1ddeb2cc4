-- ===== src/Space/Palette/Consistency.antt =====
-- The bookkeeping invariant of a palette, after `Palette::consistency_check`, against a function
-- that says how often each index occurs (all-is-cubes/src/space/palette.rs).
use all_is_cubes.Prelude.{
  ◌∙◌, Bool-cases, ℕ, ◌≤◌, ◌<◌, ◌≡◌, ◌⊎◌, inl, inr, Option, none, some, length, get_elem?, ◌==◌,
  if◌then◌else◌, arith,
}
use all_is_cubes.Space.Palette.{Blocks, BlockIndex, Table, Data, max_index}

module _ (B : Blocks) where
  open B use {Block, block_eq}

  -- `pin` is an index that is bound before it is used: the one that `ensure_index` has returned.
  pub record IsReady (pin : Option BlockIndex) (p : Table B) (occurrences : ℕ → ℕ) : Type 0 where
    pub counts : (i : ℕ) (d : Data B) → get_elem? p.entries i ≡ some d → d.count ≡ occurrences i
    pub within : (i : ℕ) → 0 < occurrences i → i < length p.entries
    pub linked :
        (b : Block) (i : ℕ)
        → p.block_to_index b ≡ some i
        → (d : Data B) × (get_elem? p.entries i ≡ some d)
          × (d.block ≡ b)
          × ((0 < d.count) ⊎ (pin ≡ some i))
    pub listed :
        (i : ℕ) (d : Data B)
        → get_elem? p.entries i ≡ some d
        → (0 < d.count) ⊎ (pin ≡ some i)
        → p.block_to_index d.block ≡ some i
    pub small : length p.entries ≤ max_index

  -- Each count is the number of occurrences, each index that occurs has an entry, and a block is
  -- bound to an index exactly if the entry there holds it and is in use.
  abbrev pub IsConsistent : Table B → (ℕ → ℕ) → Type 0
  IsConsistent p occurrences = IsReady none p occurrences

  -- The entry at `i` holds `b`.
  abbrev pub Holds : Table B → ℕ → Block → Type 0
  Holds p i b = (d : Data B) × (get_elem? p.entries i ≡ some d) × (d.block ≡ b)

  -- Every entry in use in `p` is the same in `q`.
  abbrev pub Keeps : Table B → Table B → Type 0
  Keeps p q =
      (i : ℕ) (d : Data B)
      → get_elem? p.entries i ≡ some d
      → 0 < d.count
      → get_elem? q.entries i ≡ some d

  -- An entry of no use at `j`, old or new, is given to a block that was bound to none.
  module _ (p q : Table B) (b : Block) (j : ℕ) (occ : ℕ → ℕ) (new : Data B) (c : IsConsistent p occ)
      (fresh : p.block_to_index b ≡ none)
      (reads : (k : ℕ)
        → get_elem? q.entries k ≡ (if k == j then some new else get_elem? p.entries k))
      (binds : (x : Block)
        → q.block_to_index x ≡ (if block_eq.beq b x then some j else p.block_to_index x))
      (is_new : (new.block ≡ b) × (new.count ≡ 0) × (occ j ≡ 0))
      (vacant : (d : Data B) → get_elem? p.entries j ≡ some d → d.count ≡ 0) where
    given-linked :
        (x : Block) (i : ℕ)
        → q.block_to_index x ≡ some i
        → (d : Data B) × (get_elem? q.entries i ≡ some d)
          × (d.block ≡ x)
          × ((0 < d.count) ⊎ (some j ≡ some i))
    given-linked x i h = elim (Bool-cases (block_eq.beq b x)) [
      | inl same ↦
          let e : some j ≡ some i = rw (binds x, same) at h in
          (new, rw reads (ground arith), is_new.0 ∙ (block_eq.beq_iff b x).0 same, inr e)
      | inr other ↦
          let old : p.block_to_index x ≡ some i = rw (binds x, other) at h in
          let (d, g, hb, used) = c.linked x i old in
          (d, rw reads (ground (arith, vacant d)), hb, ground arith)
    ]

    given-listed :
        (i : ℕ) (d : Data B)
        → get_elem? q.entries i ≡ some d
        → (0 < d.count) ⊎ (some j ≡ some i)
        → q.block_to_index d.block ≡ some i
    given-listed i d g used = elim (Bool-cases (i == j)) [
      | inl same ↦ ground (arith, reads i, binds d.block, block_eq.beq_iff b d.block)
      | inr other ↦
          let old : get_elem? p.entries i ≡ some d = rw (reads i, other) at g in
          let bound = c.listed i d old (ground arith) in
          ground (arith, binds d.block, block_eq.beq_iff b d.block)
    ]

    pub given-IsReady :
        length p.entries ≤ length q.entries → length q.entries ≤ max_index → IsReady (some j) q occ
    given-IsReady longer small = record {
      counts = λ i d g. ground (arith, reads i, c.counts i d);
      within = λ i h. omega (arith, c.within i h);
      linked = given-linked;
      listed = given-listed;
      small = small;
    }
