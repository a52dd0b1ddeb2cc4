-- ===== src/Universe/Transaction/Whole.antt =====
-- all-is-cubes/src/universe/universe_txn.rs: the making, the checking and the committing of a
-- `UniverseTransaction`, from those of its members.
use all_is_cubes.Prelude.{
  ℕ, Bool, false, Option, none, some, List, [], ◌∷◌, get_elem?, ◌==◌, if◌then◌else◌, not,
}
use all_is_cubes.Prelude.Run.{Run, ret, ◌>>=◌, unwrap, Result, ok, err}
use all_is_cubes.Prelude.Dict.{find}
use all_is_cubes.Universe.{
  Name, specific, anonym, pending, name_eq, eqb_name, Ref, Heap, name_of, universe_id_of,
}
use all_is_cubes.Universe.Transaction.{
  Members, AnyTransaction, AnyCheck, MemberTxn, modify, inserting, deleting, PreconditionFailed,
  CommitError, UniverseCommitCheck, Whole, Txn, Precondition, Store, check_member, commit_member,
  is_pending_name, on, pending_name,
}

module _ (I : Members) where
  open I use {
    Label, label_eq, Value, Transaction, CommitCheck, MergeCheck, Problem, CommitProblem, Conflict,
  }

  abbrev pub default : Whole I
  default = record { members = []; anonymous_insertions = []; universe_id = none }

  -- `AnyTransaction::target_name` and `AnyTransaction::universe_id`
  unfoldable pub target_name :
      Heap Label Value → AnyTransaction Transaction → Run (Option (Name Label))
  unfolding name_of
  target_name h AnyTransaction.noop = ret none
  target_name h (on k r t) = unwrap (get_elem? h r) >>= λ c. ret (some (name_of c))

  unfoldable pub target_universe : Heap Label Value → AnyTransaction Transaction → Run (Option ℕ)
  unfolding universe_id_of
  target_universe h AnyTransaction.noop = ret none
  target_universe h (on k r t) = unwrap (get_elem? h r) >>= λ c. ret (universe_id_of c)

  -- `MemberTxn::universe_id`
  unfoldable pub member_universe : Heap Label Value → Txn I → Run (Option ℕ)
  unfolding target_universe
  member_universe h (modify t) = target_universe h t
  member_universe h MemberTxn.noop = ret none
  member_universe h (inserting r) = ret none
  member_universe h deleting = ret none

  unfoldable pub from_member_txn : Heap Label Value → Name Label → Txn I → Run (Whole I)
  unfolding member_universe
  from_member_txn h name t = do
    id ← member_universe h t
    ret (record { members = (name, t) ∷ []; anonymous_insertions = []; universe_id = id })

  -- `UniverseTransaction::insert`
  unfoldable pub insert : Heap Label Value → Ref → Run (Whole I)
  unfolding from_member_txn name_of
  insert h r = unwrap (get_elem? h r) >>= λ c. elim (name_of c) [
    | specific l ↦ from_member_txn h (specific l) (inserting r)
    | anonym i ↦ from_member_txn h (anonym i) (inserting r)
    | pending ↦ ret (record default { anonymous_insertions = inserting r ∷ [] })
  ]

  -- `UniverseTransaction::delete`
  unfoldable pub delete : Heap Label Value → Ref → Run (Whole I)
  unfolding from_member_txn name_of
  delete h r = unwrap (get_elem? h r) >>= λ c. from_member_txn h (name_of c) deleting

  -- `From<AnyTransaction>`, which `bind` uses.
  unfoldable pub from_any : Heap Label Value → AnyTransaction Transaction → Run (Whole I)
  unfolding target_name from_member_txn
  from_any h t = target_name h t >>= λ n. elim n [
    | none ↦ ret default
    | some name ↦ from_member_txn h name (modify t)
  ]

  abbrev Checked : Type 0
  Checked = Option (AnyCheck CommitCheck)

  -- The first loop of `check`.
  unfoldable pub check_members :
      List (Name Label × Txn I)
      → Store I
      → Run (Result (Precondition I) (List (Name Label × Checked)))
  unfolding check_member
  check_members [] w = ret (ok [])
  check_members ((name, t) ∷ members) w =
      let rest = check_members members w in
      if is_pending_name I name
      then ret (err pending_name)
      else (check_member I t w name >>= λ a. elim a [
        | err x ↦ ret (err x)
        | ok c ↦
            rest >>= λ b. elim b [ err x ↦ ret (err x) | ok checks ↦ ret (ok ((name, c) ∷ checks)) ]
      ])

  -- The second loop of `check`.
  unfoldable pub check_anonymous :
      List (Txn I) → Store I → Run (Result (Precondition I) (List Checked))
  unfolding check_member
  check_anonymous [] w = ret (ok [])
  check_anonymous (t ∷ ts) w =
      let rest = check_anonymous ts w in
      check_member I t w pending >>= λ a. elim a [
        | err x ↦ ret (err x)
        | ok c ↦ rest >>= λ b. elim b [ err x ↦ ret (err x) | ok checks ↦ ret (ok (c ∷ checks)) ]
      ]

  abbrev pub is_other : Option ℕ → ℕ → Bool
  is_other none id = false
  is_other (some i) id = not (i == id)

  unfoldable pub check :
      Whole I → Store I → Run (Result (Precondition I) (UniverseCommitCheck Label CommitCheck))
  unfolding check_members check_anonymous
  check t w =
      if is_other t.universe_id w.universe.id
      then ret (err PreconditionFailed.different_universe)
      else (check_members t.members w >>= λ a. elim a [
        | err x ↦ ret (err x)
        | ok members ↦ check_anonymous t.anonymous_insertions w >>= λ b. elim b [
          | err x ↦ ret (err x)
          | ok anonymous ↦ ret (ok (record { members = members; anonymous_insertions = anonymous }))
        ]
      ])

  abbrev pub Committed : Type 0
  Committed = Store I × Result (CommitError Label CommitProblem) (Unit {0})

  -- The loops of `commit`.
  unfoldable pub commit_members :
      List (Name Label × Txn I) → List (Name Label × Checked) → Store I → Run Committed
  unfolding find commit_member eqb_name
  commit_members members [] w = ret (w, ok tt)
  commit_members members ((name, c) ∷ checks) w = do
    t ← unwrap (find ⦃e = name_eq ⦃e = label_eq⦄⦄ name members)
    a ← commit_member I t w name c
    elim a.1 [ err x ↦ ret (a.0, err x) | ok done ↦ commit_members members checks a.0 ]

  unfoldable pub commit_anonymous : List (Txn I) → List Checked → Store I → Run Committed
  unfolding commit_member
  commit_anonymous [] checks w = ret (w, ok tt)
  commit_anonymous (t ∷ ts) [] w = ret (w, ok tt)
  commit_anonymous (t ∷ ts) (c ∷ checks) w = commit_member I t w pending c >>= λ a. elim a.1 [
    | err x ↦ ret (a.0, err x)
    | ok done ↦ commit_anonymous ts checks a.0
  ]

  unfoldable pub commit : Whole I → UniverseCommitCheck Label CommitCheck → Store I → Run Committed
  unfolding commit_members commit_anonymous
  commit t checks w = commit_members t.members checks.members w >>= λ a. elim a.1 [
    | err x ↦ ret (a.0, err x)
    | ok done ↦ commit_anonymous t.anonymous_insertions checks.anonymous_insertions a.0
  ]
