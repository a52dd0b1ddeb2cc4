-- ===== src/Universe/Committing.antt =====
-- `MemberTxn` (all-is-cubes/src/universe/universe_txn.rs): what the commit does after a check.
use all_is_cubes.Prelude.{
  ◌^◌, ◌<◌, ◌+◌, none, ◌≢◌, ℕ, ◌≡◌, refl, ◌∙◌, ap, inl, inr, Option, some, get_elem?, set, arith,
}
use all_is_cubes.Prelude.Run.{err, Result, Run-cases, Result-cases, ret, ok}
use all_is_cubes.Universe.{
  pending, specific, InsertErrorKind, get_any, anonym, Name, Kind, Ref, is_pending, name_eq,
}
use all_is_cubes.Universe.Soundness.{get_any-Free, Free-get_any, IsSound, Free}
use all_is_cubes.Universe.Placing.{Places}
use all_is_cubes.Universe.Naming.{Refused, given}
use all_is_cubes.Universe.Inserting.{insert_and_upgrade_pending-Places, upgraded}
use all_is_cubes.Universe.Deleting.{delete-Removes, Removes}
use all_is_cubes.Universe.Checked.{
  changed, Modifies, changed-IsSound, check_any-Found, try_borrow_mut-ready, inserting-Pending,
}
use all_is_cubes.Universe.Transaction.{
  modify_failed, CommitError, no_check, commit_any, check_member, Members, AnyTransaction, on,
  AnyCheck, checked, MemberTxn, modify, inserting, deleting, Txn, Store, CellOf, check_any,
  commit_member,
}

module _ (I : Members) where
  open I use {Label, label_eq, Value, Transaction, CommitCheck, CommitProblem}

  -- What a change does to the universe and the cells.
  abbrev pub Effect : Txn I → Store I → Store I → Name Label → Type 0
  Effect MemberTxn.noop w w' n = w' ≡ w
  Effect (modify AnyTransaction.noop) w w' n = w' ≡ w
  Effect (modify (on k r t)) w w' n = Modifies I w w' r t
  Effect (inserting r) w w' n =
      (c : CellOf I) × (get_elem? w.heap r ≡ some c)
      × (c.state ≡ is_pending n)
      × Places ⦃e = label_eq⦄ w w' c.kind (given n w.universe.next_anonym) r
      × (get_elem? w'.heap r ≡ some (upgraded ⦃e = label_eq⦄ w c (given n w.universe.next_anonym)))
  Effect deleting w w' n =
      (k : Kind) × (r : Ref) × Removes ⦃e = label_eq⦄ w w' k n r × Free ⦃e = label_eq⦄ w'.universe n

  abbrev pub Answer : Type 0
  Answer = Result (CommitError Label CommitProblem) (Unit {0})

  -- What the commit of a member's own transaction answers is passed on.
  abbrev pub own_answer : Result CommitProblem (Unit {0}) → Answer
  own_answer (ok done) = ok tt
  own_answer (err p) = err (modify_failed p)

  -- The answer: that of the member's own transaction, if there is one, and no error otherwise.
  abbrev pub Answers :
      (t : Txn I) (w w' : Store I) (n : Name Label) → Effect t w w' n → Answer → Type 0
  Answers MemberTxn.noop w w' n e a = a ≡ ok tt
  Answers (modify AnyTransaction.noop) w w' n e a = a ≡ ok tt
  Answers (modify (on k r t)) w w' n e a = a ≡ own_answer (I.commit t e.value e.check).1
  Answers (inserting r) w w' n e a = a ≡ ok tt
  Answers deleting w w' n e a = a ≡ ok tt

  abbrev Done : Txn I → Store I → Name Label → Option (AnyCheck CommitCheck) → Type 0
  Done t w n c =
      (w' : Store I) × (a : Answer) × (commit_member I t w n c ≡ ret (w', a))
      × ((e : Effect t w w' n) × Answers t w w' n e a)
      × IsSound ⦃e = label_eq⦄ w'

  modify-Done :
      (k : Kind) (r : Ref) (t : Transaction) (w : Store I) (n : Name Label)
      (c : Option (AnyCheck CommitCheck))
      → IsSound ⦃e = label_eq⦄ w
      → check_member I (modify (on k r t)) w n ≡ ret (ok c)
      → Done (modify (on k r t)) w n c
  unfolding check_member commit_member commit_any
  modify-Done k r t w n c s e = elim (Run-cases (check_any I w.heap (on k r t))) [
    | inr p ↦ absurd (ground (arith, p, e))
    | inl (a, p) ↦ elim (Result-cases a) [
      | inr (x, q) ↦ absurd (ground (arith, p, q, e))
      | inl (x, q) ↦
          let f = check_any-Found I w k r t x (p ∙ ap ret q) in
          let cs : c ≡ some (checked f.check) = ground (arith, p, q, e, f.is_check) in
          let ready_value = try_borrow_mut-ready I f.cell f.value f.borrowed in
          let own = (I.commit t f.value f.check).1 in
          let run : commit_member I (modify (on k r t)) w n c
              ≡ ret (
                record w { heap = set w.heap r (changed I f.cell (I.commit t f.value f.check).0) },
                own_answer own,
              ) =
            elim (Result-cases own) [
              | inl (y, fine) ↦ ground (arith, cs, f.at_ref, f.borrowed, fine)
              | inr (y, failed) ↦ ground (arith, cs, f.at_ref, f.borrowed, failed)
            ] in
          (
            record w { heap = set w.heap r (changed I f.cell (I.commit t f.value f.check).0) },
            own_answer own,
            run,
            (
              record {
                cell = f.cell;
                value = f.value;
                check = f.check;
                at_ref = f.at_ref;
                has_value = ready_value;
                passed = f.passed;
                result = refl;
              },
              refl,
            ),
            changed-IsSound I w r f.cell f.value (I.commit t f.value f.check).0 s f.at_ref
                ready_value,
          )
    ]
  ]

  unrefused :
      (w : Store I) (n : Name Label) (x : InsertErrorKind)
      → get_any ⦃e = label_eq⦄ w.universe n ≡ none
      → ((i : ℕ) → n ≢ anonym i)
      → ¬ Refused ⦃e = label_eq⦄ w.universe n x
  unrefused w (specific l) x f g = λ h. h.1 (get_any-Free ⦃e = label_eq⦄ w.universe (specific l) f)
  unrefused w (anonym i) x f g = λ h. g i refl
  unrefused w pending x f g = λ h. h

  inserting-Done :
      (r : Ref) (w : Store I) (n : Name Label) (c : Option (AnyCheck CommitCheck))
      → IsSound ⦃e = label_eq⦄ w
      → w.universe.next_anonym + 1 < 2 ^ 64
      → check_member I (inserting r) w n ≡ ret (ok c)
      → Done (inserting r) w n c
  unfolding commit_member
  inserting-Done r w n c s room e =
      let p = inserting-Pending I r w n c e in
      elim (insert_and_upgrade_pending-Places ⦃e = label_eq⦄ w r p.cell n s room p.at_ref
        p.is_waiting) [
          | inl (w', f, pl, s', d) ↦
              (w', ok tt, rw f refl, ((p.cell, p.at_ref, p.is_waiting, pl, d), refl), s')
          | inr (x, f, g) ↦ absurd (unrefused w n x p.unused p.not_anonym g)
        ]

  deleting-Done :
      (w : Store I) (n : Name Label) (c : Option (AnyCheck CommitCheck))
      → IsSound ⦃e = label_eq⦄ w
      → check_member I deleting w n ≡ ret (ok c)
      → Done deleting w n c
  unfolding check_member commit_member
  deleting-Done w n c s e = elim (delete-Removes ⦃e = label_eq⦄ w n s) [
    | inl (k, r, w', d, p, s', free) ↦
        let no_check : c ≡ none = ground (arith, e) in
        (w', ok tt, rw (no_check, d) refl, ((k, r, p, free), refl), s')
    | inr (d, free) ↦ absurd (ground (arith, e, Free-get_any ⦃e = label_eq⦄ w.universe n free))
  ]

  -- On a sound universe with room for another number, a change of a member that checks is committed
  -- without a panic. It does just what it says (it changes the value of its target as the member's
  -- own transaction does, makes the pending reference a member, or removes the member with the
  -- name), and keeps the invariant. The answer is an error exactly where the commit of the member's
  -- own transaction gives that error.
  pub commit_member-Effect :
      (t : Txn I) (w : Store I) (n : Name Label) (c : Option (AnyCheck CommitCheck))
      → IsSound ⦃e = label_eq⦄ w
      → w.universe.next_anonym + 1 < 2 ^ 64
      → check_member I t w n ≡ ret (ok c)
      → (w' : Store I) × (a : Answer) × (commit_member I t w n c ≡ ret (w', a))
        × ((e : Effect t w w' n) × Answers t w w' n e a)
        × IsSound ⦃e = label_eq⦄ w'
  unfolding check_member commit_member check_any commit_any
  commit_member-Effect MemberTxn.noop w n c s room e =
      let no_check : c ≡ none = ground (arith, e) in (w, ok tt, rw no_check refl, (refl, refl), s)
  commit_member-Effect (modify AnyTransaction.noop) w n c s room e =
      let it : c ≡ some no_check = ground (arith, e) in (w, ok tt, rw it refl, (refl, refl), s)
  commit_member-Effect (modify (on k r t)) w n c s room e = modify-Done k r t w n c s e
  commit_member-Effect (inserting r) w n c s room e = inserting-Done r w n c s room e
  commit_member-Effect deleting w n c s room e = deleting-Done w n c s e
