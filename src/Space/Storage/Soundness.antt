-- ===== src/Space/Storage/Soundness.antt =====
-- The invariant of a `Space`, after `Space::consistency_check`, and what a reader sees of it.
use all_is_cubes.Space.Palette.Counting.{less, more}
use all_is_cubes.Space.Palette.Consistency.{IsConsistent, Holds}
use all_is_cubes.Prelude.Run.{ret}
use all_is_cubes.Math.Vector.{Cube}
use all_is_cubes.Math.GridAab.Volume.{cubes, IsValid}
use all_is_cubes.Space.Storage.{block_at, State, Optics}
use all_is_cubes.Prelude.{
  [], set, get_elem?-lt, ◌≢◌, ◌+◌, ap, ◌∙◌, ◌==◌, some, arith, ◌≡◌, ◌<◌, sym, length, if◌then◌else◌,
  ◌≤◌, ◌∷◌, get_elem?, ℕ, List, true, zero, suc,
}
use all_is_cubes.Math.GridAab
use all_is_cubes.Space.Palette
use all_is_cubes.Space.Palette.{Data, Blocks}

-- How often an index occurs.
abbrev pub count : ℕ → List ℕ → ℕ
count a [] = 0
count a (x ∷ xs) = (if a == x then 1 else 0) + count a xs

pub count_pos : (xs : List ℕ) (k a : ℕ) → get_elem? xs k ≡ some a → 0 < count a xs
count_pos [] k a h = cc
count_pos (x ∷ xs) zero a h = ground arith
count_pos (x ∷ xs) (suc k) a h = ground (arith, count_pos xs k a h)

pub count-set :
    (xs : List ℕ) (k o n : ℕ)
    → get_elem? xs k ≡ some o
    → n ≢ o
    → (a : ℕ) → count a (set xs k n) ≡ more n (less o (λ i. count i xs)) a
count-set [] k o n h ne a = cc
count-set (x ∷ xs) zero o n h ne a = ground arith
count-set (x ∷ xs) (suc k) o n h ne a =
    ground (arith, count-set xs k o n h ne a, count_pos xs k o h)

pub count-le : (xs : List ℕ) (a : ℕ) → count a xs ≤ length xs
count-le [] a = omega arith
count-le (x ∷ xs) a = ground (arith, count-le xs a)

module _ (B : Blocks) (O : Optics B.Evaluated) where
  open B use {Block}

  pub record IsSound (s : State B O) : Type 0 where
    pub valid : IsValid s.bounds
    pub filled : length s.contents ≡ cubes s.bounds.sizes
    pub consistent : IsConsistent B s.palette (λ i. count i s.contents)
    pub lit : s.light_enabled ≡ true → length s.lighting ≡ cubes s.bounds.sizes

  -- The cube, inside the bounds, holds the block.
  abbrev pub Shows : State B O → Cube → Block → Type 0
  Shows s c b =
      (n : ℕ) × (i : ℕ) × (GridAab.index s.bounds c ≡ some n)
      × (get_elem? s.contents n ≡ some i)
      × Holds B s.palette i b

  -- What the side effects of a write leave alone.
  pub record SameStorage (s t : State B O) : Type 0 where
    pub bounds : t.bounds ≡ s.bounds
    pub palette : t.palette ≡ s.palette
    pub contents : t.contents ≡ s.contents
    pub light_enabled : t.light_enabled ≡ s.light_enabled
    pub lighting : length t.lighting ≡ length s.lighting

  pub SameStorage-IsSound : (s t : State B O) → SameStorage s t → IsSound s → IsSound t
  SameStorage-IsSound s t e v = record {
    valid = rw e.bounds v.valid;
    filled = rw (e.bounds, e.contents) v.filled;
    consistent = rw (e.palette, e.contents) v.consistent;
    lit = λ h. rw (e.lighting, e.bounds) (v.lit (sym e.light_enabled ∙ h));
  }

  -- Every index below the volume reads an entry.
  pub reads :
      (s : State B O) (n : ℕ)
      → IsSound s
      → n < cubes s.bounds.sizes
      → (i : ℕ) × (d : Data B) × (get_elem? s.contents n ≡ some i)
        × (get_elem? s.palette.entries i ≡ some d)
        × (0 < d.count)
  reads s n v h =
      let (i, at_n) = get_elem?-lt s.contents n (omega (arith, v.filled)) in
      let used = count_pos s.contents n i at_n in
      let (d, at_i) = get_elem?-lt s.palette.entries i (v.consistent.within i used) in
      (i, d, at_n, at_i, omega (arith, v.consistent.counts i d at_i))

  -- A block that is shown is what reading gives.
  pub block_at-Shows :
      (s : State B O) (c : Cube) (b : Block) → Shows s c b → block_at B O s c ≡ ret b
  unfolding block_at Palette.entry
  block_at-Shows s c b (n, i, e, f, (d, g, hb)) = rw (e, f, g, block_at, Palette.entry) (ap ret hb)
