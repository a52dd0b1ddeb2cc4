-- ===== src/Space/Transaction.antt =====
-- all-is-cubes/src/space/space_txn.rs: `SpaceTransaction`, a set of changes of cubes that is checked
-- against a space, committed to it, and merged with another one.
--
-- The B-tree map of cubes is the list of its entries in the order of the keys. The behaviors of a
-- transaction are left out: the transactions here are those with an empty set of them, and the
-- cubes that `commit` activates are what it returns.
pub mod Cubes
pub mod Checking
pub mod Applying
pub mod Committing
pub mod Agreeing
pub mod Merging
pub mod Bounds
use all_is_cubes.Prelude.{
  length, ◌++◌, ltb, Bool, true, false, ◌&&◌, ◌||◌, Option, none, some, List, [], ◌∷◌,
  if◌then◌else◌,
}
use all_is_cubes.Prelude.Run.{Run, ret, ◌>>=◌, Result, ok, err}
use all_is_cubes.Prelude.Int.{ltb_ℤ, eqb_ℤ}
use all_is_cubes.Math.Vector.{Cube, eqb_vec}
use all_is_cubes.Math.GridAab
use all_is_cubes.Space.Palette
use all_is_cubes.Space.Palette.{Blocks}
use all_is_cubes.Space.Storage.{
  read, Optics, State, SetCubeError, out_of_bounds, too_many_blocks, set_impl,
}

pub record CubeTransaction (Block : Type 0) : Type 0 where
  pub old : Option Block
  pub new : Option Block
  pub conserved : Bool
  pub activate : Bool

pub record CubeConflict : Type 0 where
  pub old : Bool
  pub new : Bool

pub data SpaceTransactionConflict : Type 0 where
  cube_conflict : Cube → CubeConflict → SpaceTransactionConflict

pub data CheckFailure : Type 0 where
  existing_block_not_as_expected cube_out_of_bounds : CheckFailure

-- The order of `[GridCoordinate; 3]`.
unfoldable pub ltb_cube : Cube → Cube → Bool
ltb_cube c d =
    if eqb_ℤ c.x d.x
    then (if eqb_ℤ c.y d.y then ltb_ℤ c.z d.z else ltb_ℤ c.y d.y)
    else ltb_ℤ c.x d.x

-- `BTreeMap::get` and `BTreeMap::insert`
module _ {V : Type 0} where
  unfoldable pub find_cube : Cube → List (Cube × V) → Option V
  find_cube c [] = none
  find_cube c ((d, v) ∷ m) = if eqb_vec d c then some v else find_cube c m

  unfoldable pub insert_at : Cube → V → List (Cube × V) → List (Cube × V)
  unfolding ltb_cube
  insert_at c v [] = (c, v) ∷ []
  insert_at c v ((d, w) ∷ m) =
      let rest = (d, w) ∷ insert_at c v m in
      if eqb_vec d c then (c, v) ∷ m else if ltb_cube c d then (c, v) ∷ (d, w) ∷ m else rest

module _ (B : Blocks) where
  open B use {Block, block_eq}

  abbrev pub Change : Type 0
  Change = CubeTransaction Block

  abbrev pub SpaceTransaction : Type 0
  SpaceTransaction = List (Cube × Change)

  abbrev pub default : Change
  default = record { old = none; new = none; conserved = false; activate = false }

  -- `CubeTransaction::ACTIVATE`
  abbrev pub activation : Change
  activation = record { old = none; new = none; conserved = false; activate = true }

  abbrev pub conserved_change : Option Block → Option Block → Change
  conserved_change old new = record { old = old; new = new; conserved = true; activate = false }

  -- `matches!((a, b), (Some(a), Some(b)) if a != b)`
  unfoldable pub differ : Option Block → Option Block → Bool
  differ (some a) (some b) = if block_eq.beq a b then false else true
  differ (some a) none = false
  differ none b = false

  abbrev pub is_some : Option Block → Bool
  is_some none = false
  is_some (some b) = true

  abbrev pub or : Option Block → Option Block → Option Block
  or none b = b
  or (some a) b = some a

  unfoldable pub check_merge_cube : Change → Change → Result CubeConflict (Unit {0})
  unfolding differ
  check_merge_cube a b =
      let conflict : CubeConflict = record {
        old = differ a.old b.old;
        new = is_some a.new && is_some b.new && a.conserved;
      } in
      if conflict.old || conflict.new then err conflict else ok tt

  unfoldable pub commit_merge_cube : Change → Change → Change
  commit_merge_cube a b = record {
    conserved = (a.conserved && is_some a.new) || (b.conserved && is_some b.new);
    old = or a.old b.old;
    new = or a.new b.new;
    activate = a.activate || b.activate;
  }

  unfoldable pub set_cube : Cube → Option Block → Option Block → SpaceTransaction
  set_cube c old new = (c, conserved_change old new) ∷ []

  unfoldable pub activate_block : Cube → SpaceTransaction
  activate_block c = (c, activation) ∷ []

  unfoldable pub set :
      SpaceTransaction
      → Cube
      → Option Block
      → Option Block
      → Result SpaceTransactionConflict SpaceTransaction
  unfolding find_cube insert_at check_merge_cube commit_merge_cube
  set m c old new = elim (find_cube c m) [
    | none ↦ ok (insert_at c (conserved_change old new) m)
    | some existing ↦ elim (check_merge_cube existing (conserved_change old new)) [
      | err conflict ↦ err (cube_conflict c conflict)
      | ok check ↦ ok (insert_at c (commit_merge_cube existing (conserved_change old new)) m)
    ]
  ]

  unfoldable pub set_overwrite : SpaceTransaction → Cube → Block → SpaceTransaction
  unfolding find_cube insert_at
  set_overwrite m c b = elim (find_cube c m) [
    | none ↦ insert_at c (record default { new = some b }) m
    | some existing ↦ insert_at c (record existing { new = some b }) m
  ]

  unfoldable pub nonconserved : SpaceTransaction → SpaceTransaction
  nonconserved [] = []
  nonconserved ((c, t) ∷ m) = (c, record t { conserved = false }) ∷ nonconserved m

  -- The loop of `check_merge`, over the smaller map.
  unfoldable pub check_merge_cubes :
      SpaceTransaction → SpaceTransaction → Result SpaceTransactionConflict (Unit {0})
  unfolding find_cube check_merge_cube
  check_merge_cubes [] other = ok tt
  check_merge_cubes ((c, t) ∷ m) other = elim (find_cube c other) [
    | none ↦ check_merge_cubes m other
    | some u ↦ elim (check_merge_cube t u) [
      | err conflict ↦ err (cube_conflict c conflict)
      | ok check ↦ check_merge_cubes m other
    ]
  ]

  unfoldable pub check_merge :
      SpaceTransaction → SpaceTransaction → Result SpaceTransactionConflict (Unit {0})
  unfolding check_merge_cubes
  check_merge m other =
      if ltb (length other) (length m) then check_merge_cubes other m else check_merge_cubes m other

  -- The loop of `commit_merge`, which moves the entries of the smaller map into the other one.
  unfoldable pub merge_into : SpaceTransaction → SpaceTransaction → SpaceTransaction
  unfolding find_cube insert_at commit_merge_cube
  merge_into m [] = m
  merge_into m ((c, t) ∷ rest) =
      merge_into
        (insert_at c
          (elim (find_cube c m) [ none ↦ t | some existing ↦ commit_merge_cube existing t ]) m)
        rest

  unfoldable pub commit_merge : SpaceTransaction → SpaceTransaction → SpaceTransaction
  unfolding merge_into
  commit_merge m other =
      if ltb (length m) (length other) then merge_into other m else merge_into m other

  module _ (O : Optics B.Evaluated) where
    -- One round of the loop of `check`.
    unfoldable pub check_change : State B O → Cube → Change → Run (Result CheckFailure (Unit {0}))
    check_change s c t = elim (GridAab.index s.bounds c) [
      | some i ↦ elim t.old [
        | none ↦ ret (ok tt)
        | some b ↦ do
          block_index ← read s.contents i
          data_of ← Palette.entry B s.palette block_index
          ret (if block_eq.beq data_of.block b then ok tt else err existing_block_not_as_expected)
      ]
      | none ↦ ret (if t.conserved || is_some t.old then err cube_out_of_bounds else ok tt)
    ]

    unfoldable pub check : SpaceTransaction → State B O → Run (Result CheckFailure (Unit {0}))
    unfolding check_change
    check [] s = ret (ok tt)
    check ((c, t) ∷ m) s =
        let rest = check m s in
        check_change s c t >>= λ r. elim r [ err e ↦ ret (err e) | ok done ↦ rest ]

    -- The space after the commit, and the cubes to activate or the error.
    abbrev pub Committed : Type 0
    Committed = record { space : State B O; result : Result SetCubeError (List Cube) }

    abbrev pub committed : State B O → Result SetCubeError (List Cube) → Committed
    committed s r = record { space = s; result = r }

    -- `space.set`, where a transaction that is not conserved may be out of bounds.
    abbrev pub tolerated : Bool → Result SetCubeError Bool → Result SetCubeError (Unit {0})
    tolerated conserved (ok changed) = ok tt
    tolerated conserved (err too_many_blocks) = err too_many_blocks
    tolerated conserved (err (out_of_bounds m k)) =
        if conserved then err (out_of_bounds m k) else ok tt

    -- One round of the loop of `commit`.
    unfoldable pub commit_change :
        Palette.Evaluator B
        → State B O
        → Cube
        → Change
        → Run (State B O × Result SetCubeError (Unit {0}))
    commit_change ev s c t = elim t.new [
      | none ↦ ret (s, ok tt)
      | some b ↦ set_impl B O ev s c b >>= λ out. ret (out.state, tolerated t.conserved out.result)
    ]

    unfoldable pub commit_changes :
        Palette.Evaluator B → SpaceTransaction → State B O → List Cube → Run Committed
    unfolding commit_change
    commit_changes ev [] s to_activate = ret (committed s (ok to_activate))
    commit_changes ev ((c, t) ∷ m) s to_activate = commit_change ev s c t >>= λ out. elim out.1 [
      | err e ↦ ret (committed out.0 (err e))
      | ok done ↦
          commit_changes ev m out.0 (if t.activate then to_activate ++ (c ∷ []) else to_activate)
    ]

    unfoldable pub commit : Palette.Evaluator B → SpaceTransaction → State B O → Run Committed
    unfolding commit_changes
    commit ev m s = commit_changes ev m s []
