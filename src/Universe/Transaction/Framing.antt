-- ===== src/Universe/Transaction/Framing.antt =====
-- What the commit of one change leaves alone (all-is-cubes/src/universe/universe_txn.rs): the cells
-- and the names of the others, so that their checks stay valid.
use all_is_cubes.Prelude.{
  ℕ, ◌+◌, ◌≤◌, ◌≡◌, ◌≢◌, refl, ◌∙◌, sym, ap, subst, Option, some, get_elem?, get_elem?-set, arith,
  some-eq_some,
}
use all_is_cubes.Prelude.Run.{ret, ok}
use all_is_cubes.Universe.{
  member, is_pending, space, character, block_def, Name, specific, anonym, pending, Ref, Kind,
  name_of, get, get_any,
}
use all_is_cubes.Universe.Soundness.{IsSound}
use all_is_cubes.Universe.Placing.{get-Places_other}
use all_is_cubes.Universe.Naming.{given}
use all_is_cubes.Universe.Deleting.{get-Removes_other}
use all_is_cubes.Universe.Committing.{Effect}
use all_is_cubes.Universe.Checked.{changed, inserting-Pending}
use all_is_cubes.Universe.Transaction.{
  Members, AnyTransaction, on, AnyCheck, MemberTxn, modify, inserting, deleting, Txn, Store, CellOf,
  check_member, check_any,
}

module _ (I : Members) where
  open I use {Label, label_eq, CommitCheck}

  -- A transaction on a value stands under the name of its target.
  abbrev pub Matched : Store I → Name Label → Txn I → Type 0
  Matched w n (modify (on k r t)) = (c : CellOf I) × (get_elem? w.heap r ≡ some c) × (name_of c ≡ n)
  Matched w n (modify AnyTransaction.noop) = Unit
  Matched w n MemberTxn.noop = Unit
  Matched w n (inserting r) = Unit
  Matched w n deleting = Unit

  -- All that the check of a change looks at is as it was.
  abbrev pub Unmoved : Store I → Store I → Name Label → Txn I → Type 0
  Unmoved w w' m MemberTxn.noop = Unit
  Unmoved w w' m (modify AnyTransaction.noop) = Unit
  Unmoved w w' m (modify (on k r t)) = get_elem? w'.heap r ≡ get_elem? w.heap r
  Unmoved w w' m (inserting r) =
      (get_elem? w'.heap r ≡ get_elem? w.heap r)
      × (get_any ⦃e = label_eq⦄ w'.universe m ≡ get_any ⦃e = label_eq⦄ w.universe m)
  Unmoved w w' m deleting =
      get_any ⦃e = label_eq⦄ w'.universe m ≡ get_any ⦃e = label_eq⦄ w.universe m

  pub check_member-Unmoved :
      (u : Txn I) (w w' : Store I) (m : Name Label)
      → Unmoved w w' m u
      → check_member I u w' m ≡ check_member I u w m
  unfolding check_member check_any
  check_member-Unmoved MemberTxn.noop w w' m h = refl
  check_member-Unmoved (modify AnyTransaction.noop) w w' m h = refl
  check_member-Unmoved (modify (on k r t)) w w' m h = rw (h, check_any) refl
  check_member-Unmoved (inserting r) w w' m h = rw (h.0, h.1, check_member) refl
  check_member-Unmoved deleting w w' m h = rw (h, check_member) refl

  pub get_any-cong :
      (w w' : Store I) (m : Name Label)
      → ((l : Kind) → get ⦃e = label_eq⦄ w'.universe l m ≡ get ⦃e = label_eq⦄ w.universe l m)
      → get_any ⦃e = label_eq⦄ w'.universe m ≡ get_any ⦃e = label_eq⦄ w.universe m
  unfolding get_any get
  get_any-cong w w' m h = rw (h block_def, h character, h space, get_any) refl

  -- What a change of the name `n` leaves alone.
  pub record Framed (w w' : Store I) (n : Name Label) : Type 0 where
    pub gets :
        (l : Kind) (m : Name Label)
        → m ≢ n
        → get ⦃e = label_eq⦄ w'.universe l m ≡ get ⦃e = label_eq⦄ w.universe l m
    pub cells :
        (q : Ref) (c : CellOf I)
        → get_elem? w.heap q ≡ some c
        → name_of c ≢ n
        → get_elem? w'.heap q ≡ get_elem? w.heap q
    pub bounded : w'.universe.next_anonym ≤ w.universe.next_anonym + 1

  Framed-refl : (w w' : Store I) (n : Name Label) → w' ≡ w → Framed w w' n
  Framed-refl w w' n e =
      subst (λ (x : Store I). Framed w x n) (sym e)
        (record { gets = λ l m d. refl; cells = λ q c f d. refl; bounded = omega arith })

  pub given_named : (n : Name Label) (i : ℕ) → n ≢ pending → given n i ≡ n
  given_named (specific l) i h = refl
  given_named (anonym j) i h = refl
  given_named pending i h = absurd (h refl)

  named_pending : (c : CellOf I) (n : Name Label) → c.state ≡ is_pending n → name_of c ≡ n
  unfolding name_of
  named_pending c n h = rw (h, name_of) refl

  named_member : (c : CellOf I) (n : Name Label) (i : ℕ) → c.state ≡ member n i → name_of c ≡ n
  unfolding name_of
  named_member c n i h = rw (h, name_of) refl

  -- Different names are those of different cells.
  names_apart :
      (w : Store I) (q r : Ref) (c d : CellOf I) (n : Name Label)
      → get_elem? w.heap q ≡ some c
      → name_of c ≢ n
      → get_elem? w.heap r ≡ some d
      → name_of d ≡ n
      → q ≢ r
  names_apart w q r c d n f ne g e x =
      let same : c ≡ d = some-eq_some (sym f ∙ ap (λ (y : ℕ). get_elem? w.heap y) x ∙ g) in
      ne (ap (λ (y : CellOf I). name_of y) same ∙ e)

  pub Effect-Framed :
      (t : Txn I) (w w' : Store I) (n : Name Label)
      → IsSound ⦃e = label_eq⦄ w
      → n ≢ pending
      → Matched w n t
      → Effect I t w w' n
      → Framed w w' n
  Effect-Framed MemberTxn.noop w w' n s np ma e = Framed-refl w w' n e
  Effect-Framed (modify AnyTransaction.noop) w w' n s np ma e = Framed-refl w w' n e
  Effect-Framed (modify (on k r t)) w w' n s np (d, f, x) e =
      let next = changed I e.cell (I.commit t e.value e.check).0 in
      subst (λ (x : Store I). Framed w x n) (sym e.result)
        (record {
          gets = λ l m ne. refl;
          cells = λ q c g ne.
              get_elem?-set w.heap r next q ∙ ground (arith, names_apart w q r c d n g ne f x);
          bounded = omega arith;
        })
  Effect-Framed (inserting r) w w' n s np ma (c, at, x, p, y) =
      let same = given_named n w.universe.next_anonym np in
      record {
        gets = λ l m ne. get-Places_other ⦃e = label_eq⦄ p l m (λ z. ne (z ∙ same));
        cells = λ q d g ne. p.untouched q (names_apart w q r d c n g ne at (named_pending c n x));
        bounded = p.bounded;
      }
  Effect-Framed deleting w w' n s np ma (k, r, p, free) =
      let g = s.registered k n r p.was_member in
      record {
        gets = λ l m ne. get-Removes_other ⦃e = label_eq⦄ p l m ne;
        cells = λ q d f ne. p.untouched q (
            names_apart w q r d g.cell n f ne g.at_ref
              (named_member g.cell n w.universe.id g.is_member));
        bounded = omega (arith, p.same_number);
      }

  -- A change of another name that has been checked is not moved.
  pub Framed-Unmoved :
      (u : Txn I) (w w' : Store I) (n m : Name Label) (c : Option (AnyCheck CommitCheck))
      → Framed w w' n
      → m ≢ n
      → Matched w m u
      → check_member I u w m ≡ ret (ok c)
      → Unmoved w w' m u
  Framed-Unmoved MemberTxn.noop w w' n m c f d ma h = tt
  Framed-Unmoved (modify AnyTransaction.noop) w w' n m c f d ma h = tt
  Framed-Unmoved (modify (on k r t)) w w' n m c f d (x, at, y) h =
      f.cells r x at (λ z. d (sym y ∙ z))
  Framed-Unmoved (inserting r) w w' n m c f d ma h =
      let p = inserting-Pending I r w m c h in
      (
        f.cells r p.cell p.at_ref (λ z. d (sym (named_pending p.cell m p.is_waiting) ∙ z)),
        get_any-cong w w' m (λ l. f.gets l m d),
      )
  Framed-Unmoved deleting w w' n m c f d ma h = get_any-cong w w' m (λ l. f.gets l m d)
