-- ===== src/Universe/Transaction/Merging.antt =====
-- all-is-cubes/src/universe/universe_txn.rs and universe/members.rs: the merging of two
-- transactions.
use all_is_cubes.Prelude.{
  ℕ, Bool, true, false, Option, none, some, List, ◌++◌, ◌==◌, if◌then◌else◌, not,
}
use all_is_cubes.Prelude.Run.{Run, ret, panic, ◌>>=◌, ◌>>◌, assert, unwrap, Result, ok, err}
use all_is_cubes.Universe.{same_kind, Name, name_eq, eqb_name}
use all_is_cubes.Universe.Maps.{Merge, check_merge_maps, commit_merge_maps}
use all_is_cubes.Universe.Transaction.{
  Members, AnyTransaction, AnyCheck, no_check, checked, MemberTxn, modify, inserting, deleting,
  AnyTransactionConflict, mismatch, conflict, MemberConflict, insert_vs_other, delete_vs_other,
  modify_conflict, UniverseConflict, member_conflict, Whole, Txn, on,
}

module _ (I : Members) where
  open I use {
    Label, label_eq, Value, Transaction, CommitCheck, MergeCheck, Problem, CommitProblem, Conflict,
  }

  -- `AnyTransaction::check_merge`, where another target is a panic.
  unfoldable pub check_merge_any :
      AnyTransaction Transaction
      → AnyTransaction Transaction
      → Run (Result (AnyTransactionConflict Conflict) (AnyCheck MergeCheck))
  check_merge_any AnyTransaction.noop u = ret (ok no_check)
  check_merge_any (on k r t) AnyTransaction.noop = ret (ok no_check)
  check_merge_any (on k r t) (on l q u) =
      if not (same_kind k l)
      then ret (err mismatch)
      else if not (r == q)
      then panic
      else elim (I.check_merge t u) [ err c ↦ ret (err (conflict c)) | ok c ↦ ret (ok (checked c)) ]

  unfoldable pub commit_merge_any :
      AnyTransaction Transaction
      → AnyTransaction Transaction
      → AnyCheck MergeCheck
      → Run (AnyTransaction Transaction)
  commit_merge_any t AnyTransaction.noop c = ret t
  commit_merge_any AnyTransaction.noop (on l q u) c = ret (on l q u)
  commit_merge_any (on k r t) (on l q u) no_check = panic
  commit_merge_any (on k r t) (on l q u) (checked c) =
      if same_kind k l then ret (on k r (I.commit_merge t u c)) else panic

  -- `Merge` of `MemberTxn`
  unfoldable pub check_merge_member :
      Txn I → Txn I → Run (Result (MemberConflict Conflict) (Option (AnyCheck MergeCheck)))
  unfolding check_merge_any
  check_merge_member MemberTxn.noop u = ret (ok none)
  check_merge_member (modify t) MemberTxn.noop = ret (ok none)
  check_merge_member (inserting r) MemberTxn.noop = ret (ok none)
  check_merge_member deleting MemberTxn.noop = ret (ok none)
  check_merge_member (modify t) (modify u) = check_merge_any t u >>= λ a. elim a [
    | err c ↦ ret (err (modify_conflict c))
    | ok c ↦ ret (ok (some c))
  ]
  check_merge_member (inserting r) (modify u) = ret (err insert_vs_other)
  check_merge_member (inserting r) (inserting q) = ret (err insert_vs_other)
  check_merge_member (inserting r) deleting = ret (err insert_vs_other)
  check_merge_member (modify t) (inserting q) = ret (err insert_vs_other)
  check_merge_member deleting (inserting q) = ret (err insert_vs_other)
  check_merge_member deleting deleting = ret (ok none)
  check_merge_member deleting (modify u) = ret (err delete_vs_other)
  check_merge_member (modify t) deleting = ret (err delete_vs_other)

  abbrev is_none : Option (AnyCheck MergeCheck) → Bool
  is_none none = true
  is_none (some c) = false

  unfoldable pub commit_merge_member : Txn I → Txn I → Option (AnyCheck MergeCheck) → Run (Txn I)
  unfolding commit_merge_any
  commit_merge_member MemberTxn.noop u c = do assert (is_none c); ret u
  commit_merge_member (modify t) MemberTxn.noop c = do assert (is_none c); ret (modify t)
  commit_merge_member (inserting r) MemberTxn.noop c = do assert (is_none c); ret (inserting r)
  commit_merge_member deleting MemberTxn.noop c = do assert (is_none c); ret deleting
  commit_merge_member (modify t) (modify u) c = do
    x ← unwrap c
    v ← commit_merge_any t u x
    ret (modify v)
  commit_merge_member deleting deleting c = ret deleting
  commit_merge_member (inserting r) (modify u) c = panic
  commit_merge_member (inserting r) (inserting q) c = panic
  commit_merge_member (inserting r) deleting c = panic
  commit_merge_member (modify t) (inserting q) c = panic
  commit_merge_member deleting (inserting q) c = panic
  commit_merge_member deleting (modify u) c = panic
  commit_merge_member (modify t) deleting c = panic

  abbrev pub member_merge : Merge (Txn I)
  member_merge = record {
    MergeCheck = Option (AnyCheck MergeCheck);
    Conflict = MemberConflict Conflict;
    check_merge = check_merge_member;
    commit_merge = commit_merge_member;
  }

  abbrev pub MergeChecks : Type 0
  MergeChecks = List (Name Label × Option (AnyCheck MergeCheck))

  -- The two universes, if both transactions have one and they differ.
  abbrev pub clash : Option ℕ → Option ℕ → Option (ℕ × ℕ)
  clash none b = none
  clash (some i) none = none
  clash (some i) (some j) = if i == j then none else some (i, j)

  unfoldable pub check_merge :
      Whole I → Whole I → Run (Result (UniverseConflict Label Conflict) MergeChecks)
  unfolding check_merge_maps eqb_name check_merge_member
  check_merge t o = elim (clash t.universe_id o.universe_id) [
    | some (i, j) ↦ ret (err (UniverseConflict.different_universe i j))
    | none ↦ check_merge_maps ⦃e = name_eq ⦃e = label_eq⦄⦄ member_merge t.members o.members >>= λ a.
        elim a [ err c ↦ ret (err (member_conflict c)) | ok checks ↦ ret (ok checks) ]
  ]

  abbrev pub or : Option ℕ → Option ℕ → Option ℕ
  or none b = b
  or (some i) b = some i

  unfoldable pub commit_merge : Whole I → Whole I → MergeChecks → Run (Whole I)
  unfolding commit_merge_maps eqb_name commit_merge_member
  commit_merge t o checks = do
    members ← commit_merge_maps ⦃e = name_eq ⦃e = label_eq⦄⦄ member_merge t.members o.members checks
    ret (record {
      members = members;
      anonymous_insertions = t.anonymous_insertions ++ o.anonymous_insertions;
      universe_id = or t.universe_id o.universe_id;
    })
