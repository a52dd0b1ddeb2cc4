-- ===== src/Space/Palette/Ensure.antt =====
-- `Palette::ensure_index` (all-is-cubes/src/space/palette.rs) and the bookkeeping.
use all_is_cubes.Space.Palette.Consistency.{IsReady, IsConsistent, Holds, Keeps, given-IsReady}
use all_is_cubes.Prelude.{
  some-eq_some, none≢some, sym, ap, Option-cases, ◌∙◌, Bool-cases, ℕ, suc, ◌+◌, ◌≤◌, ◌<◌, ◌≡◌, refl,
  inl, inr, Bool, true, false, none, some, List, [], ◌∷◌, length, get_elem?, leb, ◌==◌, arith,
  get_elem?-set, length-set, get_elem?-append, length-append, lt-get_elem?,
}
use all_is_cubes.Space.Palette.{
  candidate, Blocks, bind_index, Table, Data, Evaluator, new_data, find_zeroed, take_over, grow,
  ensure_index, max_index, as_index,
}

pub leb-false : (a b : ℕ) → b < a → leb a b ≡ false
leb-false a b h = ground arith

module _ (B : Blocks) where
  open B use {Block, block_eq}

  find_zeroed_sound :
      (ds : List (Data B)) (k i : ℕ)
      → find_zeroed B ds k ≡ some i
      → (n : ℕ) × (d : Data B) × (i ≡ k + n) × (get_elem? ds n ≡ some d) × (d.count ≡ 0)
  unfolding find_zeroed
  find_zeroed_sound [] k i h = cc
  find_zeroed_sound (d ∷ ds) k i h = elim (Bool-cases (d.count == 0)) [
    | inl z ↦ (0, d, ground arith, refl, ground arith)
    | inr nz ↦
        let (n, d', e, g, c) = find_zeroed_sound ds (k + 1) i (rw nz at h) in
        (suc n, d', omega arith, g, c)
  ]

  module _ (ev : Evaluator B) (p : Table B) (b : Block) (occ : ℕ → ℕ) (c : IsConsistent B p occ)
      (fresh : p.block_to_index b ≡ none) where
    take_over-IsReady :
        (i : ℕ) (d₀ : Data B)
        → get_elem? p.entries i ≡ some d₀
        → d₀.count ≡ 0
        → IsReady B (some i) (take_over B ev p b i).palette occ
          × Holds B (take_over B ev p b i).palette i b
    unfolding take_over new_data bind_index
    take_over-IsReady i d₀ at_i zeroed =
        let inside = lt-get_elem? p.entries i at_i in
        let tall = c.small in
        let fits : as_index i ≡ i = omega arith in
        (
          given-IsReady B p (take_over B ev p b i).palette b i occ (new_data B ev b) c fresh
              (λ k. ground (arith, get_elem?-set p.entries i (new_data B ev b) k)) (λ x. rw fits)
              (refl, refl, ground (arith, c.counts i d₀)) (λ d g. ground arith)
              (omega (arith, length-set p.entries i (new_data B ev b)))
              (omega (arith, length-set p.entries i (new_data B ev b))),
          (new_data B ev b, ground (arith, get_elem?-set p.entries i (new_data B ev b) i), refl),
        )

    grow-IsReady :
        length p.entries < max_index
        → IsReady B (some (length p.entries)) (grow B ev p b).palette occ
          × Holds B (grow B ev p b).palette (length p.entries) b
          × ((grow B ev p b).result ≡ some (length p.entries))
    unfolding grow new_data bind_index
    grow-IsReady room =
        let n = length p.entries in
        let fits : as_index n ≡ n = omega arith in
        let more = length-append p.entries (new_data B ev b ∷ []) in
        rw (leb-false max_index n room) (
          given-IsReady B p _ b n occ (new_data B ev b) c fresh
              (get_elem?-append p.entries (new_data B ev b)) (λ x. rw fits)
              (refl, refl, ground (arith, c.within n))
              (λ d g. absurd (omega (arith, lt-get_elem? p.entries n g))) (omega (arith, more))
              (omega (arith, more)),
          (new_data B ev b, ground (arith, get_elem?-append p.entries (new_data B ev b) n), refl),
          ap some fits,
        )

  module _ (ev : Evaluator B) (p : Table B) (b : Block) (reuse : Bool) where
    pub ensure_index-known :
        (i : ℕ)
        → p.block_to_index b ≡ some i
        → ensure_index B ev p b reuse ≡ record { palette = p; result = some i; changes = [] }
    unfolding ensure_index
    ensure_index-known i e = rw (e, ensure_index)

    ensure_index-zeroed :
        (i : ℕ)
        → p.block_to_index b ≡ none
        → candidate B p reuse ≡ some i
        → ensure_index B ev p b reuse ≡ take_over B ev p b i
    unfolding ensure_index
    ensure_index-zeroed i e f = rw (e, f, ensure_index)

    pub ensure_index-grow :
        p.block_to_index b ≡ none
        → candidate B p reuse ≡ none
        → ensure_index B ev p b reuse ≡ grow B ev p b
    unfolding ensure_index
    ensure_index-grow e f = rw (e, f, ensure_index)

  grow_full :
      (ev : Evaluator B) (p : Table B) (b : Block)
      → max_index ≤ length p.entries
      → (grow B ev p b).result ≡ none
  unfolding grow
  grow_full ev p b h = ground arith

  IsReady-known :
      (p : Table B) (b : Block) (occ : ℕ → ℕ) (i : ℕ)
      → IsConsistent B p occ
      → p.block_to_index b ≡ some i
      → IsReady B (some i) p occ × Holds B p i b × Keeps B p p
  IsReady-known p b occ i c e =
      let (d, g, hb, used) = c.linked b i e in
      (
        record {
          counts = c.counts;
          within = c.within;
          linked =
              λ x k h. let (d', g', hb', used') = c.linked x k h in (d', g', hb', ground arith);
          listed = λ k d' g' u. c.listed k d' g' (ground arith);
          small = c.small;
        },
        (d, g, hb),
        λ k d' g' u. g',
      )

  IsReady-zeroed :
      (ev : Evaluator B) (p : Table B) (b : Block) (occ : ℕ → ℕ) (i j : ℕ)
      → IsConsistent B p occ
      → p.block_to_index b ≡ none
      → find_zeroed B p.entries 0 ≡ some i
      → (take_over B ev p b i).result ≡ some j
      → IsReady B (some j) (take_over B ev p b i).palette occ
        × Holds B (take_over B ev p b i).palette j b
        × Keeps B p (take_over B ev p b i).palette
  unfolding take_over
  IsReady-zeroed ev p b occ i j c fresh z h =
      let (n, d₀, at_i, g, zero_count) = find_zeroed_sound p.entries 0 i z in
      let here : n ≡ i = omega arith in
      let g' = rw here at g in
      let tall = c.small in
      let inside = lt-get_elem? p.entries i g' in
      let e : i ≡ j = ground arith in
      let (ready, holds) = take_over-IsReady ev p b occ c fresh i d₀ g' zero_count in
      rw (← e)
        (ready, holds, λ k d gk used. ground (arith, get_elem?-set p.entries i (new_data B ev b) k))

  grow-Keeps : (ev : Evaluator B) (p : Table B) (b : Block) → Keeps B p (grow B ev p b).palette
  unfolding grow
  grow-Keeps ev p b k d gk used =
      ground (arith, lt-get_elem? p.entries k gk, get_elem?-append p.entries (new_data B ev b) k)

  IsReady-grown :
      (ev : Evaluator B) (p : Table B) (b : Block) (occ : ℕ → ℕ) (j : ℕ)
      → IsConsistent B p occ
      → p.block_to_index b ≡ none
      → (grow B ev p b).result ≡ some j
      → IsReady B (some j) (grow B ev p b).palette occ
        × Holds B (grow B ev p b).palette j b
        × Keeps B p (grow B ev p b).palette
  IsReady-grown ev p b occ j c fresh h = elim (Bool-cases (leb max_index (length p.entries))) [
    | inl full ↦ absurd (none≢some (sym (grow_full ev p b (ground arith)) ∙ h))
    | inr room ↦
        let (ready, holds, result) = grow-IsReady ev p b occ c fresh (ground arith) in
        let e : length p.entries ≡ j = some-eq_some (sym result ∙ h) in
        rw (← e) (ready, holds, grow-Keeps ev p b)
  ]

  -- Whatever index `ensure_index` returns where it may reuse entries with a zero count, the palette
  -- is then consistent but for that index, which holds the block; the entries in use are kept.
  pub ensure_index-IsReady :
      (ev : Evaluator B) (p : Table B) (b : Block) (occ : ℕ → ℕ) (j : ℕ)
      → IsConsistent B p occ
      → (ensure_index B ev p b true).result ≡ some j
      → IsReady B (some j) (ensure_index B ev p b true).palette occ
        × Holds B (ensure_index B ev p b true).palette j b
        × Keeps B p (ensure_index B ev p b true).palette
  ensure_index-IsReady ev p b occ j c h = elim (Option-cases (p.block_to_index b)) [
    | inr (old, e) ↦
        let known = ensure_index-known ev p b true old e in
        let same : some old ≡ some j = rw known at h in
        rw known (rw (some-eq_some same) at (IsReady-known p b occ old c e))
    | inl fresh ↦ elim (Option-cases (find_zeroed B p.entries 0)) [
      | inr (i, z) ↦
          let zeroed = ensure_index-zeroed ev p b true i fresh z in
          rw zeroed (IsReady-zeroed ev p b occ i j c fresh z (rw zeroed at h))
      | inl full ↦
          let grows = ensure_index-grow ev p b true fresh full in
          rw grows (IsReady-grown ev p b occ j c fresh (rw grows at h))
    ]
  ]

  -- `TooManyBlocks` is returned only where the block has no index, no entry is free, and the table has
  -- its largest size; the palette is then unchanged.
  pub ensure_index-none :
      (ev : Evaluator B) (p : Table B) (b : Block)
      → (ensure_index B ev p b true).result ≡ none
      → (ensure_index B ev p b true ≡ record { palette = p; result = none; changes = [] })
        × (p.block_to_index b ≡ none)
        × (max_index ≤ length p.entries)
  unfolding ensure_index take_over grow
  ensure_index-none ev p b h = ground arith
