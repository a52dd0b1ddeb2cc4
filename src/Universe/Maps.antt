-- ===== src/Universe/Maps.antt =====
-- all-is-cubes/src/transaction/generic.rs: merging the transactions on the values of two maps.
pub mod Joining
use all_is_cubes.Prelude.{none, some, List, [], ◌∷◌, Eq, length, ltb, if◌then◌else◌}
use all_is_cubes.Prelude.Run.{Run, ret, ◌>>=◌, unwrap, Result, ok, err}
use all_is_cubes.Prelude.Dict.{find, put, remove}

pub record MapConflict (K C : Type 0) : Type 0 where
  pub key : K
  pub conflict : C

-- `Merge` of the values.
pub record Merge (V : Type 0) : Type 1 where
  pub MergeCheck : Type 0
  pub Conflict : Type 0
  pub check_merge : V → V → Run (Result Conflict MergeCheck)
  pub commit_merge : V → V → MergeCheck → Run V

module _ {K V : Type 0} ⦃e : Eq K⦄ (M : Merge V) where
  open M use {MergeCheck, Conflict}

  -- The loop of `check_merge`.
  unfoldable pub check_entries :
      List (K × V) → List (K × V) → Run (Result (MapConflict K Conflict) (List (K × MergeCheck)))
  unfolding find
  check_entries [] map2 = ret (ok [])
  check_entries ((k, v1) ∷ map1) map2 =
      let rest = check_entries map1 map2 in
      elim (find k map2) [
        | none ↦ rest
        | some v2 ↦ M.check_merge v1 v2 >>= λ a. elim a [
          | err c ↦ ret (err (record { key = k; conflict = c }))
          | ok c ↦
              rest >>= λ b. elim b [ err x ↦ ret (err x) | ok checks ↦ ret (ok ((k, c) ∷ checks)) ]
        ]
      ]

  -- The smaller map is iterated over.
  unfoldable pub check_merge_maps :
      List (K × V) → List (K × V) → Run (Result (MapConflict K Conflict) (List (K × MergeCheck)))
  unfolding check_entries
  check_merge_maps m o = if ltb (length o) (length m) then check_entries o m else check_entries m o

  -- The loop of `commit_merge`.
  unfoldable pub merge_entries :
      List (K × V) → List (K × V) → List (K × MergeCheck) → Run (List (K × V))
  unfolding find put remove
  merge_entries m [] checks = ret m
  merge_entries m ((k, v2) ∷ other) checks = elim (find k m) [
    | none ↦ merge_entries (put k v2 m) other checks
    | some v1 ↦ do
      c ← unwrap (find k checks)
      v ← M.commit_merge v1 v2 c
      merge_entries (put k v m) other (remove k checks)
  ]

  unfoldable pub commit_merge_maps :
      List (K × V) → List (K × V) → List (K × MergeCheck) → Run (List (K × V))
  unfolding merge_entries
  commit_merge_maps m o checks =
      if ltb (length m) (length o) then merge_entries o m checks else merge_entries m o checks
