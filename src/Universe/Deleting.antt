-- ===== src/Universe/Deleting.antt =====
-- `Universe::delete` (all-is-cubes/src/universe.rs).
use all_is_cubes.Prelude.{
  set, ap, ℕ, ◌≡◌, ◌≢◌, refl, ◌∙◌, sym, subst, ◌⊎◌, inl, inr, true, false, ◌&&◌, none, some, Eq,
  get_elem?, get_elem?-set, arith, Option-cases, Bool-cases, some-eq_some, none≢some, ◌==◌,
  if◌then◌else◌, lt-get_elem?, lt→ltb, length,
}
use all_is_cubes.Universe.{
  Name, anonym, pending, Kind, Ref, is_pending, member, Cell, Heap, World, same_kind, get, delete,
  drop_root, drop_cell, eqb_name, eqb_name_iff, remove_from, block_def, character, space,
}
use all_is_cubes.Universe.Soundness.{same_kind_refl, IsSound, Free, get-remove}

module _ {L V : Type 0} ⦃e : Eq L⦄ where
  -- `w'` is `w` without the member `n` of the type `k`, whose cell `r` has lost its entry.
  pub record Removes (w w' : World L V) (k : Kind) (n : Name L) (r : Ref) : Type 0 where
    pub cell : Cell L V
    pub was_member : get w.universe k n ≡ some r
    pub at_ref : get_elem? w.heap r ≡ some cell
    pub gets :
        (l : Kind) (m : Name L)
        → get w'.universe l m ≡ (if same_kind k l && eqb_name n m then none else get w.universe l m)
    pub same_id : w'.universe.id ≡ w.universe.id
    pub same_number : w'.universe.next_anonym ≡ w.universe.next_anonym
    pub now_dropped : get_elem? w'.heap r ≡ some (drop_cell cell)
    pub untouched : (q : Ref) → q ≢ r → get_elem? w'.heap q ≡ get_elem? w.heap q

  drop_root-some :
      (h : Heap L V) (r : Ref) (c : Cell L V)
      → get_elem? h r ≡ some c
      → drop_root h (some r) ≡ set h r (drop_cell c)
  unfolding drop_root
  drop_root-some h r c at = rw (at, drop_root) refl

  heap-remove_from :
      (w : World L V) (k : Kind) (n : Name L) (r : Ref) (c : Cell L V)
      → get w.universe k n ≡ some r
      → get_elem? w.heap r ≡ some c
      → (remove_from w k n).heap ≡ set w.heap r (drop_cell c)
  unfolding remove_from get
  heap-remove_from w k n r c h at = ap (drop_root w.heap) h ∙ drop_root-some w.heap r c at

  pub remove_from-Removes :
      (w : World L V) (k : Kind) (n : Name L) (r : Ref)
      → IsSound w
      → get w.universe k n ≡ some r
      → Removes w (remove_from w k n) k n r
  unfolding remove_from get
  remove_from-Removes w k n r s h =
      let g = s.registered k n r h in
      let at = g.at_ref in
      let written = heap-remove_from w k n r g.cell h at in
      record {
        cell = g.cell;
        was_member = h;
        at_ref = at;
        gets = λ l m. get-remove w.universe k l n m;
        same_id = refl;
        same_number = refl;
        now_dropped =
            ap (λ (h : Heap L V). get_elem? h r) written
            ∙ get_elem?-set w.heap r (drop_cell g.cell) r
            ∙ ground (arith, lt→ltb r (length w.heap) (lt-get_elem? w.heap r at));
        untouched = λ q d.
            ap (λ (h : Heap L V). get_elem? h q) written
            ∙ get_elem?-set w.heap r (drop_cell g.cell) q
            ∙ ground arith;
      }

  module _ {w w' : World L V} {k : Kind} {n : Name L} {r : Ref} (p : Removes w w' k n r) where
    was_there :
        (l : Kind) (m : Name L) (q : Ref)
        → get w'.universe l m ≡ some q
        → (get w.universe l m ≡ some q) × ((same_kind k l && eqb_name n m) ≡ false)
    was_there l m q h = elim (Bool-cases (same_kind k l && eqb_name n m)) [
      | inl hit ↦ absurd (none≢some (sym (rw hit at (p.gets l m)) ∙ h))
      | inr miss ↦ (sym (rw miss at (p.gets l m)) ∙ h, miss)
    ]

    still_free : (l : Kind) (m : Name L) → get w.universe l m ≡ none → get w'.universe l m ≡ none
    still_free l m h = elim (Option-cases (get w'.universe l m)) [
      | inl f ↦ f
      | inr (q, f) ↦ absurd (none≢some (sym h ∙ (was_there l m q f).0))
    ]

    both_hit : {l : Kind} {m : Name L} → k ≡ l → n ≡ m → (same_kind k l && eqb_name n m) ≡ false → ⊥
    both_hit {l} {m} a b h =
        let names = (eqb_name_iff n m).1 b in
        let kinds : same_kind k l ≡ true = rw (← a) (same_kind_refl k) in
        cc (rw (kinds, names) at h)

    -- Another member has another cell.
    other_cell :
        IsSound w
        → (l : Kind) (m : Name L) (q : Ref) → get w.universe l m ≡ some q
        → (same_kind k l && eqb_name n m) ≡ false
        → q ≢ r
    other_cell s l m q h miss x =
        let g = s.registered l m q h in
        let g' = s.registered k n r p.was_member in
        let same : g.cell ≡ g'.cell = some-eq_some (sym g.at_ref ∙ rw x g'.at_ref) in
        let kinds : k ≡ l = sym g'.of_kind ∙ ap (λ (c : Cell L V). c.kind) (sym same) ∙ g.of_kind in
        let states : member n w.universe.id ≡ member m w.universe.id =
          sym g'.is_member ∙ ap (λ (c : Cell L V). c.state) (sym same) ∙ g.is_member in
        let names : n ≡ m = cc in both_hit kinds names miss

    pub Removes-IsSound : IsSound w → IsSound w'
    Removes-IsSound s = record {
      apart = λ m l1 l2 q1 q2 h1 h2.
          s.apart m l1 l2 q1 q2 (was_there l1 m q1 h1).0 (was_there l2 m q2 h2).0;
      numbered =
          λ l m h. still_free l (anonym m) (s.numbered l m (omega (arith, p.same_number, h)));
      no_pending = λ l. still_free l pending (s.no_pending l);
      registered = λ l m q h.
          let (f, miss) = was_there l m q h in
          let g = s.registered l m q f in
          record {
            cell = g.cell;
            value = g.value;
            at_ref = p.untouched q (other_cell s l m q f miss) ∙ g.at_ref;
            of_kind = g.of_kind;
            is_member = rw p.same_id g.is_member;
            has_value = g.has_value;
          };
      alive = λ q c m h x. elim (Bool-cases (q == r)) [
        | inl same ↦
            let here : q ≡ r = ground arith in
            let g = s.registered k n r p.was_member in
            let old : p.cell ≡ g.cell = some-eq_some (sym p.at_ref ∙ g.at_ref) in
            let now : drop_cell p.cell ≡ c =
              some-eq_some
                (sym p.now_dropped ∙ subst (λ (y : ℕ). get_elem? w'.heap y ≡ some c) here h) in
            let states : member n w.universe.id ≡ is_pending m =
              sym g.is_member
              ∙ ap (λ (y : Cell L V). y.state) (sym old)
              ∙ ap (λ (y : Cell L V). y.state) now
              ∙ x in
            cc
        | inr other ↦ s.alive q c m (sym (p.untouched q (λ y. ground arith)) ∙ h) x
      ];
    }

    -- The other names have what they had.
    pub get-Removes_other :
        (l : Kind) (m : Name L) → m ≢ n → get w'.universe l m ≡ get w.universe l m
    get-Removes_other l m d = elim (Bool-cases (same_kind k l && eqb_name n m)) [
      | inl hit ↦ absurd (d (sym ((eqb_name_iff n m).0 (ground arith))))
      | inr miss ↦ p.gets l m ∙ rw miss refl
    ]

    -- The name is free afterwards: no other type has a member of that name.
    pub Removes-Free : IsSound w → Free w'.universe n
    Removes-Free s = λ l. elim (Option-cases (get w'.universe l n)) [
      | inl f ↦ f
      | inr (q, f) ↦
          let (g, miss) = was_there l n q f in
          absurd (both_hit (s.apart n k l r q p.was_member g) refl miss)
    ]

  -- On a sound universe `delete` removes the member with the name, whatever its type: its cell loses
  -- its entry, the name is free, and all other members and the invariant are kept. It returns
  -- false and changes nothing exactly if no member has the name.
  pub delete-Removes :
      (w : World L V) (n : Name L)
      → IsSound w
      → ((k : Kind) × (r : Ref) × (w' : World L V) × (delete w n ≡ (w', true))
          × Removes w w' k n r
          × IsSound w'
          × Free w'.universe n)
        ⊎ ((delete w n ≡ (w, false)) × Free w.universe n)
  unfolding delete get
  delete-Removes w n s = elim (Option-cases (get w.universe block_def n)) [
    | inr (r, f) ↦ inl (found block_def r f (rw f refl))
    | inl no_block ↦ elim (Option-cases (get w.universe character n)) [
      | inr (r, f) ↦ inl (found character r f (rw (no_block, f) refl))
      | inl no_character ↦ elim (Option-cases (get w.universe space n)) [
        | inr (r, f) ↦ inl (found space r f (rw (no_block, no_character, f) refl))
        | inl no_space ↦ inr (
          rw (no_block, no_character, no_space) refl,
          λ k. elim k as (λ k. get w.universe k n ≡ none) [
            | block_def ↦ no_block
            | character ↦ no_character
            | space ↦ no_space
          ],
        )
      ]
    ]
  ]
    where
      found :
          (k : Kind) (r : Ref)
          → get w.universe k n ≡ some r
          → delete w n ≡ (remove_from w k n, true)
          → (k : Kind) × (r : Ref) × (w' : World L V) × (delete w n ≡ (w', true))
            × Removes w w' k n r
            × IsSound w'
            × Free w'.universe n
      found k r f d =
          let p = remove_from-Removes w k n r s f in
          (k, r, remove_from w k n, d, p, Removes-IsSound p s, Removes-Free p s)
