-- ===== src/Universe/Transaction/Joining.antt =====
-- The merging of transactions on a universe (all-is-cubes/src/universe/universe_txn.rs), name by name.
use all_is_cubes.Universe.Soundness.{same_kind_refl, same_kind-eq}
use all_is_cubes.Prelude.{
  inr, inl, ◌≡◌, refl, ◌∙◌, ap, true, Option, none, some, List, ◌++◌, Bool-cases, arith,
  Option-cases,
}
use all_is_cubes.Prelude.Run.{ret, ok, Run-cases, Result-cases}
use all_is_cubes.Prelude.Dict.{find}
use all_is_cubes.Universe.{Name, name_eq, same_kind}
use all_is_cubes.Universe.Maps.{check_merge_maps}
use all_is_cubes.Universe.Maps.Joining.{Joined, Distinct, commit_merge_maps-Joined}
use all_is_cubes.Universe.Transaction.{
  Members, AnyTransaction, on, AnyCheck, no_check, checked, MemberTxn, modify, inserting, deleting,
  Txn, Whole,
}
use all_is_cubes.Universe.Transaction.Merging.{
  check_merge_any, commit_merge_any, check_merge_member, commit_merge_member, member_merge,
  check_merge, commit_merge, clash, or, MergeChecks,
}

module _ (I : Members) where
  open I use {Label, label_eq, Transaction, MergeCheck}

  any-Mergeable :
      (t u : AnyTransaction Transaction) (c : AnyCheck MergeCheck)
      → check_merge_any I t u ≡ ret (ok c)
      → ((v : AnyTransaction Transaction) × (commit_merge_any I t u c ≡ ret v))
        × ((v : AnyTransaction Transaction) × (commit_merge_any I u t c ≡ ret v))
  unfolding check_merge_any commit_merge_any
  any-Mergeable AnyTransaction.noop AnyTransaction.noop c h =
      ((AnyTransaction.noop, refl), (AnyTransaction.noop, refl))
  any-Mergeable AnyTransaction.noop (on l q u) c h = ((on l q u, refl), (on l q u, refl))
  any-Mergeable (on k r t) AnyTransaction.noop c h = ((on k r t, refl), (on k r t, refl))
  any-Mergeable (on k r t) (on l q u) no_check h =
      absurd (ground (arith, Result-cases (I.check_merge t u), h))
  any-Mergeable (on k r t) (on l q u) (checked c) h = elim (Bool-cases (same_kind k l)) [
    | inl same ↦
        let kl : k ≡ l = same_kind-eq k l same in
        let back : same_kind l k ≡ true = rw kl (same_kind_refl l) in
        (
          (on k r (I.commit_merge t u c), rw same refl),
          (on l q (I.commit_merge u t c), rw back refl),
        )
    | inr other ↦ absurd (ground (arith, other, h))
  ]

  modify-Mergeable :
      (t u : AnyTransaction Transaction) (c : Option (AnyCheck MergeCheck))
      → check_merge_member I (modify t) (modify u) ≡ ret (ok c)
      → ((v : Txn I) × (commit_merge_member I (modify t) (modify u) c ≡ ret v))
        × ((v : Txn I) × (commit_merge_member I (modify u) (modify t) c ≡ ret v))
  unfolding check_merge_member commit_merge_member
  modify-Mergeable t u c h = elim (Run-cases (check_merge_any I t u)) [
    | inr p ↦ absurd (ground (arith, p, h))
    | inl (a, p) ↦ elim (Result-cases a) [
      | inr (x, q) ↦ absurd (ground (arith, p, q, h))
      | inl (x, q) ↦
          let cs : c ≡ some x = ground (arith, p, q, h) in
          let both = any-Mergeable t u x (p ∙ ap ret q) in
          (
            (modify both.0.0, ground (arith, cs, both.0.1)),
            (modify both.1.0, ground (arith, cs, both.1.1)),
          )
    ]
  ]

  idle :
      (t : Txn I) (c : Option (AnyCheck MergeCheck))
      → c ≡ none
      → (commit_merge_member I MemberTxn.noop t c ≡ ret t)
        × (commit_merge_member I t MemberTxn.noop c ≡ ret t)
  unfolding commit_merge_member
  idle MemberTxn.noop c h = rw h (refl, refl)
  idle (modify t) c h = rw h (refl, refl)
  idle (inserting r) c h = rw h (refl, refl)
  idle deleting c h = rw h (refl, refl)

  member-Mergeable :
      (a b : Txn I) (c : Option (AnyCheck MergeCheck))
      → check_merge_member I a b ≡ ret (ok c)
      → ((v : Txn I) × (commit_merge_member I a b c ≡ ret v))
        × ((v : Txn I) × (commit_merge_member I b a c ≡ ret v))
  unfolding check_merge_member commit_merge_member
  member-Mergeable MemberTxn.noop b c h =
      let i = idle b c (ground (arith, h)) in ((b, i.0), (b, i.1))
  member-Mergeable (modify t) MemberTxn.noop c h =
      let i = idle (modify t) c (ground (arith, h)) in ((modify t, i.1), (modify t, i.0))
  member-Mergeable (inserting r) MemberTxn.noop c h =
      let i = idle (inserting r) c (ground (arith, h)) in ((inserting r, i.1), (inserting r, i.0))
  member-Mergeable deleting MemberTxn.noop c h =
      let i = idle deleting c (ground (arith, h)) in ((deleting, i.1), (deleting, i.0))
  member-Mergeable (modify t) (modify u) c h = modify-Mergeable t u c h
  member-Mergeable deleting deleting c h = ((deleting, refl), (deleting, refl))
  member-Mergeable (inserting r) (modify u) c h = absurd (ground (arith, h))
  member-Mergeable (inserting r) (inserting q) c h = absurd (ground (arith, h))
  member-Mergeable (inserting r) deleting c h = absurd (ground (arith, h))
  member-Mergeable (modify t) (inserting q) c h = absurd (ground (arith, h))
  member-Mergeable deleting (inserting q) c h = absurd (ground (arith, h))
  member-Mergeable deleting (modify u) c h = absurd (ground (arith, h))
  member-Mergeable (modify t) deleting c h = absurd (ground (arith, h))

  -- The member with a name.
  abbrev pub at_name : Name Label → List (Name Label × Txn I) → Option (Txn I)
  at_name = find ⦃e = name_eq ⦃e = label_eq⦄⦄

  -- `r` is what `t` and `o` are merged to.
  pub record Merges (t o r : Whole I) : Type 0 where
    pub members :
        (n : Name Label)
        → Joined (member_merge I) (at_name n t.members) (at_name n o.members) (at_name n r.members)
    pub anonymous : r.anonymous_insertions ≡ t.anonymous_insertions ++ o.anonymous_insertions
    pub universe : r.universe_id ≡ or I t.universe_id o.universe_id
    pub one_universe : clash I t.universe_id o.universe_id ≡ none

  -- Transactions on a universe whose `check_merge` succeeds are merged without a panic: neither is
  -- for another universe than the other, each name has the one change that it had, or what its two
  -- changes merge to in one of the two orders, and all the anonymous insertions are made.
  pub commit_merge-Merges :
      (t o : Whole I) (checks : MergeChecks I)
      → Distinct ⦃e = name_eq ⦃e = label_eq⦄⦄ t.members
      → Distinct ⦃e = name_eq ⦃e = label_eq⦄⦄ o.members
      → check_merge I t o ≡ ret (ok checks)
      → (r : Whole I) × (commit_merge I t o checks ≡ ret r) × Merges t o r
  unfolding check_merge commit_merge
  commit_merge-Merges t o checks d d' h =
      elim (Option-cases (clash I t.universe_id o.universe_id)) [
        | inr ((i, j), x) ↦ absurd (ground (arith, x, h))
        | inl apart ↦
            elim (Run-cases (
              check_merge_maps ⦃e = name_eq ⦃e = label_eq⦄⦄ (member_merge I) t.members o.members)) [
                | inr p ↦ absurd (ground (arith, apart, p, h))
                | inl (a, p) ↦ elim (Result-cases a) [
                  | inr (x, q) ↦ absurd (ground (arith, apart, p, q, h))
                  | inl (x, q) ↦
                      let same : x ≡ checks = ground (arith, apart, p, q, h) in
                      let (m, y, j) =
                        commit_merge_maps-Joined ⦃e = name_eq ⦃e = label_eq⦄⦄ (member_merge I)
                          t.members o.members checks member-Mergeable d d'
                          (p ∙ ap ret (q ∙ ap ok same)) in
                      (
                        record {
                          members = m;
                          anonymous_insertions = t.anonymous_insertions ++ o.anonymous_insertions;
                          universe_id = or I t.universe_id o.universe_id;
                        },
                        rw y refl,
                        record {
                          members = j;
                          anonymous = refl;
                          universe = refl;
                          one_universe = apart;
                        },
                      )
                ]
              ]
      ]
