-- ===== src/Universe/Checked.antt =====
-- `MemberTxn` (all-is-cubes/src/universe/universe_txn.rs): what a check finds, and the cell that the
-- commit then changes.
use all_is_cubes.Prelude.{
  none, ◌≢◌, ℕ, ◌≡◌, refl, ◌∙◌, sym, ap, subst, inl, inr, true, false, Option, some, get_elem?, set,
  get_elem?-set, arith, Option-cases, Bool-cases, some-eq_some, ◌==◌, lt-get_elem?,
}
use all_is_cubes.Prelude.Run.{Run-cases, Result-cases, ret, ok}
use all_is_cubes.Universe.{
  eqb_name_iff, get_any, name_of, eqb_name, anonym, Name, Kind, Ref, is_pending, ready,
  try_borrow_mut, name_eq,
}
use all_is_cubes.Universe.Soundness.{IsSound, Registered}
use all_is_cubes.Universe.Transaction.{
  is_anonym, check_upgrade_pending, check_member, Members, on, AnyCheck, checked, inserting, Store,
  CellOf, check_any,
}

module _ (I : Members) where
  open I use {Label, label_eq, Value, Transaction, CommitCheck}

  -- The cell after a change of its value.
  abbrev pub changed : CellOf I → Value → CellOf I
  changed c v = record c { entry = ready v }

  pub record Modifies (w w' : Store I) (r : Ref) (t : Transaction) : Type 0 where
    pub cell : CellOf I
    pub value : Value
    pub check : CommitCheck
    pub at_ref : get_elem? w.heap r ≡ some cell
    pub has_value : cell.entry ≡ ready value
    pub passed : I.check t value ≡ ok check
    pub result : w' ≡ record w { heap = set w.heap r (changed cell (I.commit t value check).0) }

  -- Changing the value of a cell that has one.
  pub changed-IsSound :
      (w : Store I) (r : Ref) (c : CellOf I) (v v' : Value)
      → IsSound ⦃e = label_eq⦄ w
      → get_elem? w.heap r ≡ some c
      → c.entry ≡ ready v
      → IsSound ⦃e = label_eq⦄ (record w { heap = set w.heap r (changed c v') })
  changed-IsSound w r c v v' s at h = record {
    apart = s.apart;
    numbered = s.numbered;
    no_pending = s.no_pending;
    registered = λ l m q f. registered_after l m q (s.registered l m q f);
    alive = λ q d m f x. elim (Bool-cases (r == q)) [
      | inl same ↦
          let now : changed c v' ≡ d = some-eq_some (sym (same_cell q same) ∙ f) in
          (v', ap (λ (y : CellOf I). y.entry) (sym now))
      | inr other ↦ s.alive q d m (sym (other_cell q other) ∙ f) x
    ];
  }
    where
      same_cell :
          (q : Ref)
          → (r == q) ≡ true
          → get_elem? (set w.heap r (changed c v')) q ≡ some (changed c v')
      same_cell q h' =
          get_elem?-set w.heap r (changed c v') q ∙ ground (arith, h', lt-get_elem? w.heap r at)

      other_cell :
          (q : Ref)
          → (r == q) ≡ false
          → get_elem? (set w.heap r (changed c v')) q ≡ get_elem? w.heap q
      other_cell q h' = get_elem?-set w.heap r (changed c v') q ∙ ground (arith, h')

      registered_after :
          (l : Kind) (m : Name Label) (q : Ref)
          → Registered ⦃e = label_eq⦄ w l m q
          → Registered ⦃e = label_eq⦄ (record w { heap = set w.heap r (changed c v') }) l m q
      registered_after l m q g = elim (Bool-cases (r == q)) [
        | inl same ↦
            let here : r ≡ q = ground arith in
            let it : c ≡ g.cell =
              some-eq_some (
                sym at ∙ subst (λ (y : ℕ). get_elem? w.heap y ≡ some g.cell) (sym here) g.at_ref) in
            record {
              cell = changed c v';
              value = v';
              at_ref = same_cell q same;
              of_kind = ap (λ (y : CellOf I). y.kind) it ∙ g.of_kind;
              is_member = ap (λ (y : CellOf I). y.state) it ∙ g.is_member;
              has_value = refl;
            }
        | inr other ↦ record {
          cell = g.cell;
          value = g.value;
          at_ref = other_cell q other ∙ g.at_ref;
          of_kind = g.of_kind;
          is_member = g.is_member;
          has_value = g.has_value;
        }
      ]

  -- What a successful check of a member's transaction has found.
  pub record Found (w : Store I) (r : Ref) (t : Transaction) (c : AnyCheck CommitCheck)
      : Type 0 where
    pub cell : CellOf I
    pub value : Value
    pub check : CommitCheck
    pub at_ref : get_elem? w.heap r ≡ some cell
    pub borrowed : try_borrow_mut cell ≡ ok value
    pub passed : I.check t value ≡ ok check
    pub is_check : c ≡ checked check

  pub check_any-Found :
      (w : Store I) (k : Kind) (r : Ref) (t : Transaction) (c : AnyCheck CommitCheck)
      → check_any I w.heap (on k r t) ≡ ret (ok c)
      → Found w r t c
  unfolding check_any
  check_any-Found w k r t c h = elim (Option-cases (get_elem? w.heap r)) [
    | inl none_at ↦ absurd (ground (arith, none_at, h))
    | inr (d, at) ↦ elim (Result-cases (try_borrow_mut d)) [
      | inl (v, borrowed) ↦ elim (Result-cases (I.check t v)) [
        | inl (x, passed) ↦ record {
          cell = d;
          value = v;
          check = x;
          at_ref = at;
          borrowed = borrowed;
          passed = passed;
          is_check = ground (arith, at, borrowed, passed, h);
        }
        | inr (p, refused) ↦ absurd (ground (arith, at, borrowed, refused, h))
      ]
      | inr (y, failed) ↦ absurd (ground (arith, at, failed, h))
    ]
  ]

  pub try_borrow_mut-ready :
      (c : CellOf I) (v : Value) → try_borrow_mut c ≡ ok v → c.entry ≡ ready v
  unfolding try_borrow_mut
  try_borrow_mut-ready c v h = ground (arith, h)

  -- What a successful check of an insertion has found.
  pub record Pending (w : Store I) (r : Ref) (n : Name Label) (c : Option (AnyCheck CommitCheck))
      : Type 0 where
    pub cell : CellOf I
    pub at_ref : get_elem? w.heap r ≡ some cell
    pub is_waiting : cell.state ≡ is_pending n
    pub not_anonym : (i : ℕ) → n ≢ anonym i
    pub unused : get_any ⦃e = label_eq⦄ w.universe n ≡ none
    pub no_check : c ≡ none

  waiting :
      (c : CellOf I) → check_upgrade_pending I c ≡ ret (ok tt) → c.state ≡ is_pending (name_of c)
  unfolding check_upgrade_pending name_of
  waiting c h = ground (arith, h)

  pub inserting-Pending :
      (r : Ref) (w : Store I) (n : Name Label) (c : Option (AnyCheck CommitCheck))
      → check_member I (inserting r) w n ≡ ret (ok c)
      → Pending w r n c
  unfolding check_member
  inserting-Pending r w n c e = elim (Option-cases (get_elem? w.heap r)) [
    | inl f ↦ absurd (ground (arith, f, e))
    | inr (d, f) ↦ elim (Bool-cases (eqb_name ⦃e = label_eq⦄ (name_of d) n)) [
      | inr other ↦ absurd (ground (arith, f, other, e))
      | inl same ↦ elim (Bool-cases (is_anonym I n)) [
        | inl g ↦ absurd (ground (arith, f, same, g, e))
        | inr g ↦ elim (Option-cases (get_any ⦃e = label_eq⦄ w.universe n)) [
          | inr (q, k) ↦ absurd (ground (arith, f, same, g, k, e))
          | inl k ↦ elim (Run-cases (check_upgrade_pending I d)) [
            | inr x ↦ absurd (ground (arith, f, same, g, k, x, e))
            | inl (a, x) ↦ elim (Result-cases a) [
              | inr (y, z) ↦ absurd (ground (arith, f, same, g, k, x, z, e))
              | inl (y, z) ↦ record {
                cell = d;
                at_ref = f;
                is_waiting =
                    waiting d (x ∙ ap ret z)
                    ∙ ap is_pending ((eqb_name_iff ⦃e = label_eq⦄ (name_of d) n).0 same);
                not_anonym = λ i q. cc (g, ap (is_anonym I) q);
                unused = k;
                no_check = ground (arith, f, same, g, k, x, z, e);
              }
            ]
          ]
        ]
      ]
    ]
  ]
