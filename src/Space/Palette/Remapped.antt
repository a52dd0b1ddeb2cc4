-- ===== src/Space/Palette/Remapped.antt =====
use all_is_cubes.Space.Palette.Ensure.{leb-false, ensure_index-grow}
use all_is_cubes.Space.Palette.Ensure.{ensure_index-known}
use all_is_cubes.Prelude.Run.{panic, err, ok, ret}
use all_is_cubes.Space.Palette.Consistency.{Holds}
use all_is_cubes.Prelude.{
  sym, true, pick_false, ◌-◌, ==_iff, zero, Option, subst, ◌≢◌, ◌++◌, some-eq_some, lt→ltb, [], ◌∷◌,
  ◌^◌, ltb, length-append, ◌∙◌, pick_true, ap, lt-get_elem?, Bool-cases, ◌==◌, ◌+◌,
  get_elem?-append, refl, if◌then◌else◌, List, inl, arith, inr, suc, Option-cases, ◌≤◌, false,
  get_elem?, some, ◌≡◌, ◌<◌, none, ℕ, length,
}
use all_is_cubes.Space.Palette.Building.{
  palette_too_large, from_blocks, remap_to, from_blocks_at, Remapping,
}
use all_is_cubes.Space.Palette.{
  todo_after, as_index, ensure_index, max_index, Data, bind_index, new_data, grow, Table, Evaluator,
  Blocks,
}

-- `Palette::from_blocks` (all-is-cubes/src/space/palette.rs) gives each block of its list an entry.
module _ (B : Blocks) where
  open B use {Block, block_eq}

  -- Each entry is the one that its block is bound to, and the other way around.
  pub record IsNumbered (p : Table B) : Type 0 where
    pub linked : (b : Block) (i : ℕ) → p.block_to_index b ≡ some i → Holds B p i b
    pub listed :
        (i : ℕ) (d : Data B) → get_elem? p.entries i ≡ some d → p.block_to_index d.block ≡ some i

  abbrev pub index_after : Remapping → ℕ → ℕ
  index_after m i = elim (m i) [ none ↦ i | some j ↦ j ]

  -- What one call of `ensure_index` that may not reuse an entry leaves.
  record Ensures (p q : Table B) (b : Block) (j : ℕ) : Type 0 where
    numbered : IsNumbered q
    holds : Holds B q j b
    keeps : (k : ℕ) (d : Data B) → get_elem? p.entries k ≡ some d → get_elem? q.entries k ≡ some d
    unused :
        ((d : Data B) (k : ℕ) → get_elem? p.entries k ≡ some d → d.count ≡ 0)
        → (d : Data B) (k : ℕ) → get_elem? q.entries k ≡ some d
        → d.count ≡ 0
    longer : length q.entries ≤ suc (length p.entries)

  module _ (p q : Table B) (b : Block) (new : Data B) (h : IsNumbered p)
      (fresh : p.block_to_index b ≡ none)
      (reads : (k : ℕ)
        → get_elem? q.entries k
          ≡ (if k == length p.entries then some new else get_elem? p.entries k))
      (binds : (x : Block)
        → q.block_to_index x
          ≡ (if block_eq.beq b x then some (length p.entries) else p.block_to_index x))
      (is_new : new.block ≡ b) where
    keeps_entries :
        (k : ℕ) (d : Data B) → get_elem? p.entries k ≡ some d → get_elem? q.entries k ≡ some d
    keeps_entries k d g = rw reads (ground (arith, lt-get_elem? p.entries k g))

    appended-IsNumbered : IsNumbered q
    appended-IsNumbered = record {
      linked = λ x i e. elim (Bool-cases (block_eq.beq b x)) [
        | inl same ↦
            let at_end : some (length p.entries) ≡ some i = rw (binds x, same) at e in
            (new, rw reads (ground arith), is_new ∙ (block_eq.beq_iff b x).0 same)
        | inr other ↦
            let old : p.block_to_index x ≡ some i = rw (binds x, other) at e in
            let (d, g, hb) = h.linked x i old in (d, keeps_entries i d g, hb)
      ];
      listed = λ i d g. elim (Bool-cases (i == length p.entries)) [
        | inl same ↦ ground (arith, reads i, binds d.block, block_eq.beq_iff b d.block)
        | inr other ↦
            let old : get_elem? p.entries i ≡ some d = rw (reads i, other) at g in
            let bound = h.listed i d old in
            ground (arith, binds d.block, block_eq.beq_iff b d.block)
      ];
    }

  grows :
      (ev : Evaluator B) (p : Table B) (b : Block)
      → IsNumbered p
      → p.block_to_index b ≡ none
      → length p.entries < max_index
      → ((grow B ev p b).result ≡ some (length p.entries))
        × Ensures p (grow B ev p b).palette b (length p.entries)
  unfolding grow new_data bind_index
  grows ev p b h fresh room =
      let n = length p.entries in
      let new = new_data B ev b in
      let q : Table B = record {
        entries = p.entries ++ (new ∷ []);
        block_to_index = bind_index ⦃e = block_eq⦄ b (as_index n) p.block_to_index;
        todo = todo_after B ev b (as_index n) p.todo;
      } in
      let fits : as_index n ≡ n = omega arith in
      let reads = get_elem?-append p.entries new in
      let binds : (x : Block)
          → q.block_to_index x ≡ (if block_eq.beq b x then some n else p.block_to_index x) =
        λ x. rw fits refl in
      rw (leb-false max_index n room) (
        ap some fits,
        record {
          numbered = appended-IsNumbered p q b new h fresh reads binds refl;
          holds = (new, ground (arith, reads n), refl);
          keeps = keeps_entries p q b new h fresh reads binds refl;
          unused = λ u d k g. ground (arith, reads k, u d k);
          longer = omega (arith, length-append p.entries (new ∷ []));
        },
      )

  ensures :
      (ev : Evaluator B) (p : Table B) (b : Block)
      → IsNumbered p
      → length p.entries < max_index
      → (j : ℕ) × ((ensure_index B ev p b false).result ≡ some j)
        × Ensures p (ensure_index B ev p b false).palette b j
  ensures ev p b h room = elim (Option-cases (p.block_to_index b)) [
    | inr (old, e) ↦
        let known = ensure_index-known B ev p b false old e in
        (
          old,
          rw known refl,
          rw known (record {
            numbered = h;
            holds = h.linked b old e;
            keeps = λ k d g. g;
            unused = λ u. u;
            longer = omega arith;
          }),
        )
    | inl fresh ↦
        let known = ensure_index-grow B ev p b false fresh refl in
        let (result, k) = grows ev p b h fresh room in
        (length p.entries, rw known result, rw known k)
  ]

  -- What the loop leaves, from the palette `p` and the remapping `m` at the counter `i`.
  pub record Remaps (p q : Table B) (m w : Remapping) (i : ℕ) (blocks : List Block) : Type 0 where
    pub numbered : IsNumbered q
    pub unused : (d : Data B) (k : ℕ) → get_elem? q.entries k ≡ some d → d.count ≡ 0
    pub keeps :
        (k : ℕ) (d : Data B) → get_elem? p.entries k ≡ some d → get_elem? q.entries k ≡ some d
    pub before : (k : ℕ) → k < i → index_after w k ≡ index_after m k
    pub maps :
        (k : ℕ) (b : Block) → get_elem? blocks k ≡ some b → Holds B q (index_after w (i + k)) b

  abbrev remapped : Remapping → ℕ → ℕ → Remapping
  remapped m i j = if i == j then m else remap_to i j m

  remapped_here : (m : Remapping) (i j : ℕ) → m i ≡ none → index_after (remapped m i j) i ≡ j
  remapped_here m i j h = elim (Bool-cases (i == j)) [
    | inl same ↦
        rw same (ap (λ (o : Option ℕ). elim o [ none ↦ i | some x ↦ x ]) h ∙ (==_iff i j).0 same)
    | inr other ↦ rw other (ground arith)
  ]

  remapped_there : (m : Remapping) (i j k : ℕ) → k ≢ i → remapped m i j k ≡ m k
  remapped_there m i j k h = ground arith

  -- The rest of the loop after one round.
  Remaps-cons :
      (p p' q : Table B) (m w : Remapping) (i j : ℕ) (b : Block) (bs : List Block)
      → m i ≡ none
      → Ensures p p' b j
      → Remaps p' q (remapped m i j) w (i + 1) bs
      → Remaps p q m w i (b ∷ bs)
  Remaps-cons p p' q m w i j b bs fresh k r = record {
    numbered = r.numbered;
    unused = r.unused;
    keeps = λ n d g. r.keeps n d (k.keeps n d g);
    before = λ n l.
        r.before n (omega arith)
        ∙ ap (λ (o : Option ℕ). elim o [ none ↦ n | some x ↦ x ])
            (remapped_there m i j n (λ e. omega arith));
    maps = maps;
  }
    where
      here : index_after w i ≡ j
      here = r.before i (omega arith) ∙ remapped_here m i j fresh

      maps :
          (n : ℕ) (x : Block) → get_elem? (b ∷ bs) n ≡ some x → Holds B q (index_after w (i + n)) x
      maps zero x g =
          let (d, at_j, holds) = k.holds in
          let start : i + 0 ≡ i = omega arith in
          rw (start, here) (d, r.keeps j d at_j, holds ∙ some-eq_some g)
      maps (suc n) x g =
          let next : i + 1 + n ≡ i + suc n = omega arith in
          subst (λ o. Holds B q (index_after w o) x) next (r.maps n x g)

  from_blocks_at-Remaps :
      (ev : Evaluator B) (blocks : List Block) (p : Table B) (m : Remapping) (i : ℕ)
      → IsNumbered p
      → ((d : Data B) (k : ℕ) → get_elem? p.entries k ≡ some d → d.count ≡ 0)
      → ((k : ℕ) → i ≤ k → m k ≡ none)
      → length p.entries ≤ i
      → i + length blocks < max_index
      → (q : Table B) × (w : Remapping) × (from_blocks_at B ev p m i blocks ≡ ret (q, w))
        × Remaps p q m w i blocks
  unfolding from_blocks_at
  from_blocks_at-Remaps ev [] p m i h u later short room = (
    p,
    m,
    pick_true (ltb (i + 1) (2 ^ 16)) _ _ (lt→ltb _ _ (omega arith)),
    record {
      numbered = h;
      unused = u;
      keeps = λ k d g. g;
      before = λ k l. refl;
      maps = λ k b g. cc;
    },
  )
  from_blocks_at-Remaps ev (b ∷ bs) p m i h u later short room =
      let (j, result, k) = ensures ev p b h (omega arith) in
      let m' = remapped m i j in
      let (q, w, run, r) =
        from_blocks_at-Remaps ev bs (ensure_index B ev p b false).palette m' (i + 1) k.numbered
          (k.unused u) (λ n l. remapped_there m i j n (λ e. omega arith) ∙ later n (omega arith))
          (omega (arith, k.longer)) (omega arith) in
      (
        q,
        w,
        pick_true (ltb (i + 1) (2 ^ 16)) _ _ (lt→ltb _ _ (omega arith)) ∙ rw result run,
        Remaps-cons p _ q m w i j b bs (later i (omega arith)) k r,
      )

  abbrev pub empty_table : Table B
  empty_table = record { entries = []; block_to_index = λ b. none; todo = [] }

  -- For fewer blocks than the largest index `from_blocks` does not panic. The entry at the remapped
  -- index of each block of the list holds that block; every entry is the only one of its block, is
  -- bound to it, and has a count of zero.
  pub from_blocks-Remaps :
      (ev : Evaluator B) (blocks : List Block)
      → length blocks < max_index
      → (q : Table B) × (w : Remapping) × (from_blocks B ev blocks ≡ ret (ok (q, w)))
        × Remaps empty_table q (λ i. none) w 0 blocks
  unfolding from_blocks
  from_blocks-Remaps ev blocks room =
      let start : IsNumbered empty_table = record { linked = λ b i h. cc; listed = λ i d g. cc } in
      let (q, w, run, r) =
        from_blocks_at-Remaps ev blocks empty_table (λ i. none) 0 start (λ d k g. cc) (λ k l. refl)
          (omega arith) (omega arith) in
      let not_large : ltb max_index (length blocks - 1) ≡ false = ground arith in
      (q, w, pick_false _ _ _ not_large ∙ rw run refl, r)

  from_blocks_at-panic :
      (ev : Evaluator B) (blocks : List Block) (p : Table B) (m : Remapping) (i : ℕ)
      → max_index ≤ i + length blocks
      → from_blocks_at B ev p m i blocks ≡ panic
  unfolding from_blocks_at
  from_blocks_at-panic ev [] p m i long = pick_false (ltb (i + 1) (2 ^ 16)) _ _ (ground arith)
  from_blocks_at-panic ev (b ∷ bs) p m i long = elim (Bool-cases (ltb (i + 1) (2 ^ 16))) [
    | inr at_end ↦ pick_false _ _ _ at_end
    | inl fits ↦ pick_true _ _ _ fits ∙ elim (Option-cases ((ensure_index B ev p b false).result)) [
      | inl full ↦ rw full refl
      | inr (j, found) ↦ rw found (
          from_blocks_at-panic ev bs (ensure_index B ev p b false).palette (remapped m i j) (i + 1)
            (omega arith))
    ]
  ]

  -- A list of 65535 or 65536 blocks makes `from_blocks` panic, whatever they are; it is the longer lists
  -- that are reported as too large.
  pub from_blocks-long :
      (ev : Evaluator B) (blocks : List Block)
      → max_index ≤ length blocks
      → from_blocks B ev blocks ≡ (
          if ltb 65536 (length blocks)
          then ret (err (palette_too_large (length blocks)))
          else panic)
  unfolding from_blocks
  from_blocks-long ev blocks long = elim (Bool-cases (ltb max_index (length blocks - 1))) [
    | inl large ↦
        let larger : ltb 65536 (length blocks) ≡ true = ground arith in
        pick_true _ _ _ large ∙ sym (pick_true _ _ _ larger)
    | inr fits ↦
        let smaller : ltb 65536 (length blocks) ≡ false = ground arith in
        pick_false _ _ _ fits
        ∙ rw (from_blocks_at-panic ev blocks empty_table (λ i. none) 0 (omega arith))
            (sym (pick_false _ _ _ smaller))
  ]
