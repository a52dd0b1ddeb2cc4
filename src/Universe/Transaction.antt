-- ===== src/Universe/Transaction.antt =====
-- all-is-cubes/src/universe/universe_txn.rs and universe/members.rs: `UniverseTransaction`, changes
-- to the members of a universe.
--
-- The members' own transactions are an interface. The locks that `check` holds for the following
-- `commit` are not taken here: what `commit` finds is what `check` has seen. A hash map is iterated
-- over in the order of its list of entries, and so is the map of its checks.
pub mod Whole
pub mod Merging
pub mod Joining
pub mod Foreign
pub mod Framing
pub mod Checking
pub mod Failing
pub mod Named
pub mod Anonymous
pub mod Committing
use all_is_cubes.Prelude.{
  ℕ, ◌≡◌, not, Bool, true, false, Option, none, some, List, [], ◌∷◌, ◌++◌, Eq, get_elem?, set, ◌==◌,
  if◌then◌else◌,
}
use all_is_cubes.Prelude.Run.{Run, ret, panic, ◌>>=◌, ◌>>◌, assert, unwrap, Result, ok, err}
use all_is_cubes.Prelude.Dict.{find}
use all_is_cubes.Universe.{
  not_ready, in_use, gone, deserializing, member, is_pending, Name, Name.specific, Name.anonym,
  Name.pending, name_eq, eqb_name, Kind, Ref, State, Entry, Cell, Heap, World, Universe, RefError,
  InsertError, name_of, universe_id_of, read, try_borrow_mut, get_any, is_taken,
  insert_and_upgrade_pending, delete,
}
use all_is_cubes.Universe.Maps.{Merge, MapConflict, check_merge_maps, commit_merge_maps}

-- The values of the members and their transactions.
pub record Members : Type 1 where
  pub Label : Type 0
  pub label_eq : Eq Label
  pub Value : Type 0
  pub Transaction : Type 0
  pub CommitCheck : Type 0
  pub MergeCheck : Type 0
  pub Problem : Type 0
  pub CommitProblem : Type 0
  pub Conflict : Type 0
  pub check : Transaction → Value → Result Problem CommitCheck
  pub commit : Transaction → Value → CommitCheck → Value × Result CommitProblem (Unit {0})
  pub check_merge : Transaction → Transaction → Result Conflict MergeCheck
  pub commit_merge : Transaction → Transaction → MergeCheck → Transaction

-- `AnyTransaction`: a transaction with its target, of the type of the target.
pub data AnyTransaction (T : Type 0) : Type 0 where
  noop : AnyTransaction T
  on : Kind → Ref → T → AnyTransaction T

-- A boxed check: of no transaction, or of one with a target.
pub data AnyCheck (C : Type 0) : Type 0 where
  no_check : AnyCheck C
  checked : C → AnyCheck C

pub data MemberTxn (T : Type 0) : Type 0 where
  noop : MemberTxn T
  modify : AnyTransaction T → MemberTxn T
  inserting : Ref → MemberTxn T
  deleting : MemberTxn T

-- The messages of `PreconditionFailed`.
pub data PreconditionFailed (P : Type 0) : Type 0 where
  different_universe pending_name wrong_name : PreconditionFailed P
  inserted_anonym name_in_use already_in_universe in_deserialization : PreconditionFailed P
  never_had_value being_mutated already_gone : PreconditionFailed P
  no_such_member deleted_anonym : PreconditionFailed P
  modification_failed : P → PreconditionFailed P

pub data CommitError (L P : Type 0) : Type 0 where
  type_mismatch : CommitError L P
  insert_failed : InsertError L → CommitError L P
  modify_failed : P → CommitError L P

pub data AnyTransactionConflict (C : Type 0) : Type 0 where
  mismatch : AnyTransactionConflict C
  conflict : C → AnyTransactionConflict C

pub data MemberConflict (C : Type 0) : Type 0 where
  insert_vs_other delete_vs_other : MemberConflict C
  modify_conflict : AnyTransactionConflict C → MemberConflict C

pub data UniverseConflict (L C : Type 0) : Type 0 where
  different_universe : ℕ → ℕ → UniverseConflict L C
  member_conflict : MapConflict (Name L) (MemberConflict C) → UniverseConflict L C

pub record UniverseTransaction (L T : Type 0) : Type 0 where
  pub members : List (Name L × MemberTxn T)
  pub anonymous_insertions : List (MemberTxn T)
  pub universe_id : Option ℕ

pub record UniverseCommitCheck (L C : Type 0) : Type 0 where
  pub members : List (Name L × Option (AnyCheck C))
  pub anonymous_insertions : List (Option (AnyCheck C))

module _ (I : Members) where
  open I use {
    Label, label_eq, Value, Transaction, CommitCheck, MergeCheck, Problem, CommitProblem, Conflict,
  }

  abbrev pub Txn : Type 0
  Txn = MemberTxn Transaction

  abbrev pub Whole : Type 0
  Whole = UniverseTransaction Label Transaction

  abbrev pub Precondition : Type 0
  Precondition = PreconditionFailed Problem

  abbrev pub Store : Type 0
  Store = World Label Value

  abbrev pub CellOf : Type 0
  CellOf = Cell Label Value

  -- `URef::check_upgrade_pending`. The test of the references in the value is disabled.
  unfoldable pub check_upgrade_pending : CellOf → Run (Result Precondition (Unit {0}))
  unfolding read
  check_upgrade_pending c = elim c.state [
    | is_pending n ↦ elim (read c) [
      | ok v ↦ ret (ok tt)
      | err in_use ↦ ret (err being_mutated)
      | err not_ready ↦ panic
      | err gone ↦ ret (err already_gone)
    ]
    | member n id ↦ ret (err already_in_universe)
    | deserializing n id ↦ ret (err in_deserialization)
    | gone n ↦ ret (err never_had_value)
  ]

  -- `AnyTransaction::check`, which fails to borrow by a panic.
  unfoldable pub check_any :
      Heap Label Value
      → AnyTransaction Transaction
      → Run (Result Precondition (AnyCheck CommitCheck))
  unfolding try_borrow_mut
  check_any h noop = ret (ok no_check)
  check_any h (on k r t) = unwrap (get_elem? h r) >>= λ c. elim (try_borrow_mut c) [
    | err x ↦ panic
    | ok v ↦ elim (I.check t v) [
      | err p ↦ ret (err (modification_failed p))
      | ok x ↦ ret (ok (checked x))
    ]
  ]

  abbrev set_entry : Heap Label Value → Ref → CellOf → Value → Heap Label Value
  set_entry h r c v = set h r (record c { entry = Entry.ready v })

  -- `AnyTransaction::commit`
  unfoldable pub commit_any :
      Store
      → AnyTransaction Transaction
      → AnyCheck CommitCheck
      → Run (Store × Result (CommitError Label CommitProblem) (Unit {0}))
  unfolding try_borrow_mut
  commit_any w noop x = ret (w, ok tt)
  commit_any w (on k r t) no_check = ret (w, err type_mismatch)
  commit_any w (on k r t) (checked x) = unwrap (get_elem? w.heap r) >>= λ c.
      elim (try_borrow_mut c) [
        | err y ↦ panic
        | ok v ↦
            let out = I.commit t v x in
            let after = record w { heap = set_entry w.heap r c out.0 } in
            elim out.1 [ ok done ↦ ret (after, ok tt) | err p ↦ ret (after, err (modify_failed p)) ]
      ]

  abbrev pub is_anonym : Name Label → Bool
  is_anonym (specific l) = false
  is_anonym (anonym i) = true
  is_anonym pending = false

  abbrev is_specific : Name Label → Bool
  is_specific (specific l) = true
  is_specific (anonym i) = false
  is_specific pending = false

  abbrev is_pending_name : Name Label → Bool
  is_pending_name (specific l) = false
  is_pending_name (anonym i) = false
  is_pending_name pending = true

  -- `MemberTxn::check`
  unfoldable pub check_member :
      Txn → Store → Name Label → Run (Result Precondition (Option (AnyCheck CommitCheck)))
  unfolding check_any check_upgrade_pending get_any eqb_name name_of
  check_member noop w name = ret (ok none)
  check_member (modify t) w name =
      check_any w.heap t >>= λ a. elim a [ err x ↦ ret (err x) | ok x ↦ ret (ok (some x)) ]
  check_member (inserting r) w name = unwrap (get_elem? w.heap r) >>= λ c.
      if not (eqb_name ⦃e = label_eq⦄ (name_of c) name)
      then ret (err wrong_name)
      else if is_anonym name
      then ret (err inserted_anonym)
      else if is_taken (get_any ⦃e = label_eq⦄ w.universe name)
      then ret (err name_in_use)
      else (check_upgrade_pending c >>= λ a. elim a [
        | err x ↦ ret (err x)
        | ok done ↦ ret (ok none)
      ])
  check_member deleting w name =
      if is_specific name
      then if is_taken (get_any ⦃e = label_eq⦄ w.universe name)
        then ret (ok none)
        else ret (err no_such_member)
      else ret (err deleted_anonym)

  abbrev is_none : Option (AnyCheck CommitCheck) → Bool
  is_none none = true
  is_none (some c) = false

  -- `MemberTxn::commit`
  unfoldable pub commit_member :
      Txn
      → Store
      → Name Label
      → Option (AnyCheck CommitCheck)
      → Run (Store × Result (CommitError Label CommitProblem) (Unit {0}))
  unfolding commit_any insert_and_upgrade_pending delete
  commit_member noop w name check = do assert (is_none check); ret (w, ok tt)
  commit_member (modify t) w name check = unwrap check >>= λ x. commit_any w t x
  commit_member (inserting r) w name check = insert_and_upgrade_pending ⦃e = label_eq⦄ w r >>= λ a.
      elim a.1 [ err x ↦ ret (a.0, err (insert_failed x)) | ok done ↦ ret (a.0, ok tt) ]
  commit_member deleting w name check = do
    assert (is_none check)
    let out = delete ⦃e = label_eq⦄ w name
    assert out.1
    ret (out.0, ok tt)
