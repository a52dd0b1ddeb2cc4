-- ===== src/Space/Palette/Sweeping.antt =====
use all_is_cubes.Space.Palette.Consistency.{Keeps, IsConsistent}
use all_is_cubes.Space.Palette.Remapped.{IsNumbered}
use all_is_cubes.Space.Palette.Building.{free_all_zero_counts, free_entries}
use all_is_cubes.Prelude.{
  length-map, ◌⊎◌, ◌≤◌, length, sym, none≢some, some-eq_some, zero, inr, ◌∙◌, refl, arith, ap, suc,
  inl, [], ◌||◌, ◌<◌, true, Bool-cases, ◌&&◌, some, none, map, ◌≡◌, ◌∷◌, ◌==◌, get_elem?, false, ℕ,
  if◌then◌else◌, Option, Bool, List,
}
use all_is_cubes.Space.Palette.{max_index, Table, tombstone, BlockIndex, unbind, Data, Blocks}

-- `Palette::free_all_zero_counts` (all-is-cubes/src/space/palette.rs) ends the building of a palette.
module _ (B : Blocks) where
  open B use {Block, block_eq}

  abbrev swept : Data B → Data B
  swept d = if d.count == 0 then tombstone B else d

  abbrev is_free : List (Data B) → Block → Bool
  is_free [] b = false
  is_free (d ∷ ds) b = ((d.count == 0) && block_eq.beq d.block b) || is_free ds b

  free_entries-map :
      (ds : List (Data B)) (m : Block → Option BlockIndex) → (free_entries B ds m).0 ≡ map swept ds
  unfolding free_entries
  free_entries-map [] m = refl
  free_entries-map (d ∷ ds) m = elim (Bool-cases (d.count == 0)) [
    | inl z ↦
        rw z (ap (λ xs. tombstone B ∷ xs) (free_entries-map ds (unbind ⦃e = block_eq⦄ d.block m)))
    | inr nz ↦ rw nz (ap (λ xs. d ∷ xs) (free_entries-map ds m))
  ]

  free_entries-unbind :
      (ds : List (Data B)) (m : Block → Option BlockIndex) (b : Block)
      → (free_entries B ds m).1 b ≡ (if is_free ds b then none else m b)
  unfolding free_entries unbind
  free_entries-unbind [] m b = refl
  free_entries-unbind (d ∷ ds) m b = elim (Bool-cases (d.count == 0)) [
    | inl z ↦ rw z (free_entries-unbind ds (unbind ⦃e = block_eq⦄ d.block m) b ∙ ground arith)
    | inr nz ↦ rw nz (free_entries-unbind ds m b)
  ]

  is_free-none :
      (ds : List (Data B)) (b : Block)
      → ((k : ℕ) (d : Data B) → get_elem? ds k ≡ some d → d.block ≡ b → 0 < d.count)
      → is_free ds b ≡ false
  is_free-none [] b h = refl
  is_free-none (d ∷ ds) b h =
      let rest = is_free-none ds b (λ k c g e. h (suc k) c g e) in
      let used = h 0 d refl in ground (arith, block_eq.beq_iff d.block b)

  is_free-some :
      (ds : List (Data B)) (b : Block) (k : ℕ) (d : Data B)
      → get_elem? ds k ≡ some d
      → d.block ≡ b
      → d.count ≡ 0
      → is_free ds b ≡ true
  is_free-some [] b k d g e z = cc
  is_free-some (c ∷ ds) b zero d g e z =
      let same : c ≡ d = some-eq_some g in
      let is : block_eq.beq c.block b ≡ true =
        (block_eq.beq_iff c.block b).1 (ap (λ (x : Data B). x.block) same ∙ e) in
      let none_left : c.count ≡ 0 = ap (λ (x : Data B). x.count) same ∙ z in ground arith
  is_free-some (c ∷ ds) b (suc k) d g e z = ground (arith, is_free-some ds b k d g e z)

  get_elem?-swept :
      (ds : List (Data B)) (i : ℕ) (d : Data B)
      → get_elem? ds i ≡ some d
      → get_elem? (map swept ds) i ≡ some (swept d)
  get_elem?-swept [] i d h = cc
  get_elem?-swept (c ∷ ds) zero d h = ap some (ap swept (some-eq_some h))
  get_elem?-swept (c ∷ ds) (suc i) d h = get_elem?-swept ds i d h

  swept-get_elem? :
      (ds : List (Data B)) (i : ℕ) (y : Data B)
      → get_elem? (map swept ds) i ≡ some y
      → (d : Data B) × (get_elem? ds i ≡ some d) × (swept d ≡ y)
  swept-get_elem? [] i y h = cc
  swept-get_elem? (c ∷ ds) zero y h = (c, refl, some-eq_some h)
  swept-get_elem? (c ∷ ds) (suc i) y h = swept-get_elem? ds i y h

  swept_count : (d : Data B) → (swept d).count ≡ d.count
  unfolding tombstone
  swept_count d = ground arith

  swept_used : (d : Data B) → 0 < d.count → swept d ≡ d
  swept_used d h = ground arith

  module _ (p q : Table B) (occ : ℕ → ℕ) (h : IsNumbered B p)
      (counts : (i : ℕ) (d : Data B) → get_elem? p.entries i ≡ some d → d.count ≡ occ i)
      (entries : q.entries ≡ map swept p.entries)
      (binds : (b : Block)
        → q.block_to_index b ≡ (if is_free p.entries b then none else p.block_to_index b)) where
    used-listed :
        (i : ℕ) (d : Data B)
        → get_elem? p.entries i ≡ some d
        → 0 < d.count
        → q.block_to_index d.block ≡ some i
    used-listed i d g used =
        let kept : is_free p.entries d.block ≡ false = is_free-none p.entries d.block (λ k c gk e.
          let same : some k ≡ some i =
            sym (h.listed k c gk) ∙ ap p.block_to_index e ∙ h.listed i d g in
          let here : get_elem? p.entries i ≡ some c = rw (some-eq_some same) at gk in
          let cd : c ≡ d = some-eq_some (sym here ∙ g) in rw cd used) in
        rw (binds d.block, kept) (h.listed i d g)

    used-linked :
        (b : Block) (i : ℕ)
        → q.block_to_index b ≡ some i
        → (d : Data B) × (get_elem? q.entries i ≡ some d) × (d.block ≡ b) × (0 < d.count)
    used-linked b i e = elim (Bool-cases (is_free p.entries b)) [
      | inl freed ↦ absurd (none≢some (rw (binds b, freed) at e))
      | inr kept ↦
          let old : p.block_to_index b ≡ some i = rw (binds b, kept) at e in
          let (d, g, hb) = h.linked b i old in
          let used : 0 < d.count = ground (arith, is_free-some p.entries b i d g hb) in
          (d, rw entries (get_elem?-swept p.entries i d g ∙ ap some (swept_used d used)), hb, used)
    ]

    swept-IsConsistent :
        ((i : ℕ) → 0 < occ i → i < length p.entries)
        → length p.entries ≤ max_index
        → IsConsistent B q occ
    swept-IsConsistent within small =
        let same_length : length q.entries ≡ length p.entries =
          ap length entries ∙ length-map p.entries swept in
        record {
          counts = λ i y g.
              let (d, gd, e) = swept-get_elem? p.entries i y (rw entries at g) in
              ap (λ (x : Data B). x.count) (sym e) ∙ swept_count d ∙ counts i d gd;
          within = λ i used. omega (arith, within i used, same_length);
          linked = λ b i e. let (d, g, hb, used) = used-linked b i e in (d, g, hb, inl used);
          listed = listed;
          small = omega (arith, same_length);
        }
      where
        listed :
            (i : ℕ) (y : Data B)
            → get_elem? q.entries i ≡ some y
            → (0 < y.count) ⊎ (none ≡ some i)
            → q.block_to_index y.block ≡ some i
        listed i y g (inr never) = absurd (none≢some never)
        listed i y g (inl used) =
            let (d, gd, e) = swept-get_elem? p.entries i y (rw entries at g) in
            let count_eq : d.count ≡ y.count =
              sym (swept_count d) ∙ ap (λ (x : Data B). x.count) e in
            let in_use : 0 < d.count = rw count_eq used in
            let same : d ≡ y = sym (swept_used d in_use) ∙ e in
            ap (λ (x : Data B). q.block_to_index x.block) (sym same) ∙ used-listed i d gd in_use

  -- A palette whose entries and bindings agree, with the counts of what occurs, is consistent after
  -- its entries of count zero are freed; the entries in use are kept.
  pub free_all-IsConsistent :
      (p : Table B) (occ : ℕ → ℕ)
      → IsNumbered B p
      → ((i : ℕ) (d : Data B) → get_elem? p.entries i ≡ some d → d.count ≡ occ i)
      → ((i : ℕ) → 0 < occ i → i < length p.entries)
      → length p.entries ≤ max_index
      → IsConsistent B (free_all_zero_counts B p) occ × Keeps B p (free_all_zero_counts B p)
  unfolding free_all_zero_counts
  free_all-IsConsistent p occ h counts within small = (
    swept-IsConsistent p (free_all_zero_counts B p) occ h counts
        (free_entries-map p.entries p.block_to_index)
        (free_entries-unbind p.entries p.block_to_index) within small,
    λ i d g used.
        rw (free_entries-map p.entries p.block_to_index)
          (get_elem?-swept p.entries i d g ∙ ap some (swept_used d used)),
  )
