-- ===== src/Behavior.antt =====
-- all-is-cubes/src/behavior.rs: `BehaviorSet`, the behaviors that are attached to a host, and
-- `BehaviorSetTransaction`, which replaces and adds some of them.
--
-- A behavior stands in an `Arc`, which is known by its address: two are equal if they share it.
pub mod Checking
pub mod Committing
pub mod Merging
pub mod Stepping
use all_is_cubes.Prelude.{
  ℕ, suc, ◌+◌, Bool, true, false, ◌&&◌, Option, none, some, List, [], ◌∷◌, ◌++◌, Eq, get_elem?, set,
  length, ltb, if◌then◌else◌, map,
}
use all_is_cubes.Prelude.Run.{Run, ret, panic, ◌>>=◌, Result, ok, err, expect}
use all_is_cubes.Prelude.Slots.{find_slot, extend_slots}

-- What a `BehaviorHost` and the behaviors are.
pub record Hosts : Type 1 where
  pub Attachment : Type 0
  pub attachment_eq : Eq Attachment
  pub Behavior : Type 0
  pub ptr_eq : Eq Behavior

pub record Entry (Attachment Behavior : Type 0) : Type 0 where
  pub attachment : Attachment
  pub behavior : Behavior

pub record Replace (E : Type 0) : Type 0 where
  pub old : E
  pub new : E

pub record Changes (E : Type 0) : Type 0 where
  pub replace : List (ℕ × Replace E)
  pub insert : List E

-- The messages of the `PreconditionFailed` of `check`.
pub data Mismatch : Type 0 where
  attachment_differs behavior_differs not_found : Mismatch

pub record BehaviorTransactionConflict : Type 0 where
  pub slot : ℕ

module _ (H : Hosts) where
  open H use {Attachment, attachment_eq, Behavior, ptr_eq}

  abbrev pub BehaviorSetEntry : Type 0
  BehaviorSetEntry = Entry Attachment Behavior

  abbrev pub BehaviorSet : Type 0
  BehaviorSet = List BehaviorSetEntry

  abbrev pub BehaviorSetTransaction : Type 0
  BehaviorSetTransaction = Changes BehaviorSetEntry

  abbrev pub default : BehaviorSetTransaction
  default = record { replace = []; insert = [] }

  unfoldable pub is_empty : BehaviorSetTransaction → Bool
  is_empty t = elim t.replace [ [] ↦ elim t.insert [ [] ↦ true | e ∷ es ↦ false ] | r ∷ rs ↦ false ]

  unfoldable pub replace : ℕ → Replace BehaviorSetEntry → BehaviorSetTransaction
  replace index replacement = record default { replace = (index, replacement) ∷ [] }

  unfoldable pub insert : Attachment → Behavior → BehaviorSetTransaction
  insert attachment behavior = record default {
    insert = record { attachment = attachment; behavior = behavior } ∷ [];
  }

  abbrev replaced_attachments : List (ℕ × Replace BehaviorSetEntry) → List Attachment
  replaced_attachments [] = []
  replaced_attachments ((i, r) ∷ m) = r.old.attachment ∷ r.new.attachment ∷ replaced_attachments m

  unfoldable pub attachments_affected : BehaviorSetTransaction → List Attachment
  attachments_affected t =
      replaced_attachments t.replace ++ map (λ (e : BehaviorSetEntry). e.attachment) t.insert

  -- `BehaviorSetEntry`'s `PartialEq`
  unfoldable pub eqb_entry : BehaviorSetEntry → BehaviorSetEntry → Bool
  eqb_entry a b = attachment_eq.beq a.attachment b.attachment && ptr_eq.beq a.behavior b.behavior

  -- One round of the loop of `check`.
  unfoldable pub check_entry :
      Option BehaviorSetEntry → Replace BehaviorSetEntry → Result Mismatch (Unit {0})
  check_entry none r = err not_found
  check_entry (some e) r =
      if attachment_eq.beq e.attachment r.old.attachment
      then (if ptr_eq.beq e.behavior r.old.behavior then ok tt else err behavior_differs)
      else err attachment_differs

  unfoldable pub check_entries :
      List (ℕ × Replace BehaviorSetEntry) → BehaviorSet → Result Mismatch (Unit {0})
  unfolding check_entry
  check_entries [] s = ok tt
  check_entries ((i, r) ∷ m) s = elim (check_entry (get_elem? s i) r) [
    | err e ↦ err e
    | ok done ↦ check_entries m s
  ]

  -- Insertions always succeed.
  unfoldable pub check : BehaviorSetTransaction → BehaviorSet → Result Mismatch (Unit {0})
  unfolding check_entries
  check t s = check_entries t.replace s

  -- `target.items[*index] = new`, which panics out of range.
  abbrev assign : BehaviorSet → ℕ → BehaviorSetEntry → Run BehaviorSet
  assign s i e = if ltb i (length s) then ret (set s i e) else panic

  unfoldable pub commit_entries :
      List (ℕ × Replace BehaviorSetEntry) → BehaviorSet → Run BehaviorSet
  commit_entries [] s = ret s
  commit_entries ((i, r) ∷ m) s = assign s i r.new >>= λ s'. commit_entries m s'

  unfoldable pub commit : BehaviorSetTransaction → BehaviorSet → Run BehaviorSet
  unfolding commit_entries
  commit t s = do s' ← commit_entries t.replace s; ret (s' ++ t.insert)

  abbrev pub contains_key : ℕ → List (ℕ × Replace BehaviorSetEntry) → Bool
  contains_key k m = elim (find_slot k m) [ none ↦ false | some r ↦ true ]

  -- `self.replace.keys().find(…)`
  unfoldable pub common_slot :
      List (ℕ × Replace BehaviorSetEntry) → List (ℕ × Replace BehaviorSetEntry) → Option ℕ
  unfolding find_slot
  common_slot [] o = none
  common_slot ((i, r) ∷ m) o = if contains_key i o then some i else common_slot m o

  unfoldable pub check_merge :
      BehaviorSetTransaction
      → BehaviorSetTransaction
      → Result BehaviorTransactionConflict (Unit {0})
  unfolding common_slot
  check_merge t o = elim (common_slot t.replace o.replace) [
    | none ↦ ok tt
    | some i ↦ err (record { slot = i })
  ]

  unfoldable pub commit_merge :
      BehaviorSetTransaction → BehaviorSetTransaction → BehaviorSetTransaction
  unfolding extend_slots
  commit_merge t o = record {
    replace = extend_slots t.replace o.replace;
    insert = t.insert ++ o.insert;
  }

-- The host of a set, and how the transactions on the host and on its set of behaviors become
-- transactions on the universe, which are merged (`none` for a conflict).
pub record Hosting (H : Hosts) : Type 1 where
  pub Host : Type 0
  pub HostTransaction : Type 0
  pub UniverseTransaction : Type 0
  pub merge : UniverseTransaction → UniverseTransaction → Option UniverseTransaction
  pub default_transaction : UniverseTransaction
  pub host_transaction_binder : HostTransaction → UniverseTransaction
  pub set_transaction_binder : BehaviorSetTransaction H → HostTransaction

module _ (H : Hosts) (W : Hosting H) where
  open H use {Attachment, Behavior}
  open W use {
    Host, HostTransaction, UniverseTransaction, merge, default_transaction, host_transaction_binder,
    set_transaction_binder,
  }

  -- What a behavior is given when it is stepped: its `bind_host` is `host_transaction_binder`, and
  -- `replace_self` is `self_transaction_binder`.
  pub record BehaviorContext : Type 0 where
    pub host : Host
    pub attachment : Attachment
    pub bind_host : HostTransaction → UniverseTransaction
    pub replace_self : Behavior → UniverseTransaction

  -- `Behavior::alive` and `Behavior::step`
  pub record Dynamics : Type 0 where
    pub alive : BehaviorContext → Behavior → Bool
    pub step_behavior : BehaviorContext → Behavior → UniverseTransaction

  -- The transaction by which the behavior at an index replaces itself.
  unfoldable pub self_replacement : ℕ → BehaviorSetEntry H → Behavior → BehaviorSetTransaction H
  unfolding replace
  self_replacement index entry new_behavior =
      replace H index (record { old = entry; new = record entry { behavior = new_behavior } })

  unfoldable pub context_of : Host → ℕ → BehaviorSetEntry H → BehaviorContext
  unfolding self_replacement
  context_of host index entry = record {
    host = host;
    attachment = entry.attachment;
    bind_host = host_transaction_binder;
    replace_self =
        λ b. host_transaction_binder (set_transaction_binder (self_replacement index entry b));
  }

  module _ (D : Dynamics) (host : Host) where
    unfoldable pub step_from : ℕ → BehaviorSet H → List UniverseTransaction
    unfolding context_of
    step_from index [] = []
    step_from index (entry ∷ s) =
        let context = context_of host index entry in
        let rest = step_from (suc index) s in
        if D.alive context entry.behavior
        then D.step_behavior context entry.behavior ∷ rest
        else rest

    -- `reduce`, where a conflict panics.
    unfoldable pub merge_from :
        UniverseTransaction → List UniverseTransaction → Run UniverseTransaction
    merge_from t [] = ret t
    merge_from t (u ∷ us) = elim (merge t u) [ none ↦ panic | some v ↦ merge_from v us ]

    unfoldable pub step : BehaviorSet H → Run UniverseTransaction
    unfolding step_from merge_from
    step s = elim (step_from 0 s) [ [] ↦ ret default_transaction | t ∷ ts ↦ merge_from t ts ]
